-- ===== src/Diagnostics/Handler/Publishing.antt =====
-- What the handler publishes, and when.
use nobl9_language_server.Base.{
  ◌≡◌, refl, ap, ◌∙◌, true, false, Option, none, some, List, [], ◌∷◌, if_intro, if◌then◌else◌, Exec,
  ok, err, panic, out_of_fuel,
}
use mathlib.Core.Path.{subst}
use mathlib.Core.List.{Permᴰ}
use mathlib.Core.List.Permᴰ
use nobl9_language_server.Text.{Bytes}
use nobl9_language_server.Messages.{Diagnostic}
use nobl9_language_server.Files.{File, ℤ}
use nobl9_language_server.Diagnostics.{Diagnostics}
use nobl9_language_server.Diagnostics.Handler.{
  is_before, insert, sort, same_version, Published, publish, published, handle,
}
use nobl9_language_server.Diagnostics.Handler.Sorting.{IsSorted, sort-IsSorted}

insert-Perm : (d : Diagnostic) (es : List Diagnostic) → Permᴰ (insert d es) (d ∷ es)
unfolding insert
insert-Perm d [] = Permᴰ.refl (d ∷ [])
insert-Perm d (e ∷ es) =
    if_intro {A = List Diagnostic} (λ s. Permᴰ s (d ∷ e ∷ es))
      (is_before d.range.start e.range.start) (λ _. Permᴰ.refl (d ∷ e ∷ es))
      (λ _. Permᴰ.trans (Permᴰ.cons refl (insert-Perm d es)) (Permᴰ.swap refl refl))

sort-Perm : (ds : List Diagnostic) → Permᴰ (sort ds) ds
unfolding sort
sort-Perm [] = Permᴰ.nil
sort-Perm (d ∷ ds) = Permᴰ.trans (insert-Perm d (sort ds)) (Permᴰ.cons refl (sort-Perm ds))

module _ {N : Type 0} where
  -- What is published is that of the file, sorted, under the version asked for, which the file still
  -- has if it is still there.
  abbrev pub IsFaithful : Bytes → ℤ → List Diagnostic → Exec (File N) → Published → Type 0
  IsFaithful uri version ds now p =
      (p.uri ≡ uri)
      × (p.version ≡ version)
      × Permᴰ p.diagnostics ds
      × IsSorted p.diagnostics
      × ((g : File N) → now ≡ ok g → same_version g.version version ≡ true)

  sorted-IsFaithful :
      (uri : Bytes) (version : ℤ) (ds : List Diagnostic) (now : Exec (File N))
      → ((g : File N) → now ≡ ok g → same_version g.version version ≡ true)
      → IsFaithful uri version ds now
          (record { uri = uri; version = version; diagnostics = sort ds })
  sorted-IsFaithful uri version ds now h = (refl, refl, sort-Perm ds, sort-IsSorted ds, h)

  -- Nothing is published, or something faithful.
  abbrev pub IsFaithfulOr : Bytes → ℤ → List Diagnostic → Exec (File N) → Option Published → Type 0
  IsFaithfulOr uri version ds now none =
      (g : File N) × (now ≡ ok g) × (same_version g.version version ≡ false)
  IsFaithfulOr uri version ds now (some p) = IsFaithful uri version ds now p

  same_file : {f g : File N} → ◌≡◌ {A = Exec (File N)} (ok f) (ok g) → f ≡ g
  same_file {f} e = ap (λ r. elim r [ ok x ↦ x | err x ↦ f | panic ↦ f | out_of_fuel ↦ f ]) e

  publish-IsFaithful :
      (uri : Bytes) (version : ℤ) (ds : List Diagnostic) (now : Exec (File N))
      → IsFaithfulOr uri version ds now (publish uri version ds now)
  unfolding publish
  publish-IsFaithful uri version ds (ok f) =
      if_intro {A = Option Published} (λ r. IsFaithfulOr uri version ds (ok f) r)
        (same_version f.version version)
        (λ same.
          sorted-IsFaithful uri version ds (ok f)
            (λ g is. subst (λ h. same_version h.version version ≡ true) (same_file is) same))
        (λ changed. (f, refl, changed))
  publish-IsFaithful uri version ds (err e) = sorted-IsFaithful uri version ds (err e) (λ g is. cc)
  publish-IsFaithful uri version ds panic = sorted-IsFaithful uri version ds panic (λ g is. cc)
  publish-IsFaithful uri version ds out_of_fuel =
      sorted-IsFaithful uri version ds out_of_fuel (λ g is. cc)

  -- Of a file that is not skipped and whose diagnosis ends, `Handle` publishes the diagnostics, each
  -- as often as it was found, sorted by line and character, under the version asked for, unless the
  -- file has another version by then; and only then it publishes nothing.
  pub handle-IsFaithful :
      (diagnose : File N → Diagnostics) (uri : Bytes) (version : ℤ) (f : File N)
      (now : Exec (File N)) (ds : List Diagnostic)
      → f.skip ≡ false
      → diagnose f ≡ ok ds
      → (r : Option Published) × (handle diagnose uri version (ok f) now ≡ ok r)
        × IsFaithfulOr uri version ds now r
  unfolding handle published
  handle-IsFaithful diagnose uri version f now ds open_file ends = (
    publish uri version ds now,
    ap (λ b. if b then ok none else published uri version (diagnose f) now) open_file
        ∙ ap (λ m. published uri version m now) ends,
    publish-IsFaithful uri version ds now,
  )
