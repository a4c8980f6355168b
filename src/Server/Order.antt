-- ===== src/Server/Order.antt =====
-- How the files of the server move: a call of the file system that closes nothing keeps every file,
-- as it was or with a later version.
use nobl9_language_server.Base.{
  ◌≡◌, ◌⊎◌, refl, sym, ◌∙◌, inl, inr, Bool, true, false, Option, none, some, Bool-cases,
  Option-cases, Exec, ok, err, panic, out_of_fuel, Done, arith,
}
use mathlib.Core.Path.{subst}
use nobl9_language_server.Text.{Bytes, equal, equal_iff, equal_refl}
use nobl9_language_server.Files.{File, ℤ, pos, negsuc, is_later, Decoder, update, update_skipped}
use nobl9_language_server.Files.Simple.{Sdk}
use nobl9_language_server.Files.System.{
  Fs, Platform, should_skip_file, update_as, update_as_needed, ended, put, has_file, new_file,
  store_opened, open_file, update_found, update_file,
}
use nobl9_language_server.Files.System.Laws.{newer, update-version, update_skipped-version}
use nobl9_language_server.Files.System.Versions.{}

pub is_later_irrefl : (a : ℤ) → is_later a a ≡ false
unfolding is_later
is_later_irrefl (pos a) = ground arith
is_later_irrefl (negsuc a) = ground arith

pub is_later_trans : (a b c : ℤ) → is_later b a ≡ true → is_later c b ≡ true → is_later c a ≡ true
unfolding is_later
is_later_trans (pos a) (pos b) (pos c) h k = ground arith
is_later_trans (pos a) (pos b) (negsuc c) h k = cc
is_later_trans (pos a) (negsuc b) c h k = cc
is_later_trans (negsuc a) (pos b) (pos c) h k = refl
is_later_trans (negsuc a) (pos b) (negsuc c) h k = cc
is_later_trans (negsuc a) (negsuc b) (pos c) h k = refl
is_later_trans (negsuc a) (negsuc b) (negsuc c) h k = ground arith

-- What is not later than a version is not later than any later one.
pub not_later_trans :
    (v a b : ℤ) → is_later v a ≡ false → is_later b a ≡ true → is_later v b ≡ false
unfolding is_later
not_later_trans (pos v) (pos a) (pos b) h k = ground arith
not_later_trans (pos v) (pos a) (negsuc b) h k = cc
not_later_trans (pos v) (negsuc a) b h k = cc
not_later_trans (negsuc v) (pos a) (pos b) h k = refl
not_later_trans (negsuc v) (pos a) (negsuc b) h k = cc
not_later_trans (negsuc v) (negsuc a) (pos b) h k = refl
not_later_trans (negsuc v) (negsuc a) (negsuc b) h k = ground arith

module _ {N : Type 0} where
  -- The same file, or a file with a later version.
  abbrev pub Later : File N → File N → Type 0
  Later f g = (is_later g.version f.version ≡ true) ⊎ (f ≡ g)

  pub Later-trans : (f g h : File N) → Later f g → Later g h → Later f h
  Later-trans f g h (inl a) (inl b) = inl (is_later_trans f.version g.version h.version a b)
  Later-trans f g h (inl a) (inr e) =
      inl (subst (λ (k : File N). is_later k.version f.version ≡ true) e a)
  Later-trans f g h (inr e) k = subst (λ x. Later x h) (sym e) k

  -- A version that is not later than that of a file stays so.
  pub Later-keeps :
      (v : ℤ) (f g : File N)
      → is_later v f.version ≡ false
      → Later f g
      → is_later v g.version ≡ false
  Later-keeps v f g h (inl a) = not_later_trans v f.version g.version h a
  Later-keeps v f g h (inr e) = subst (λ (k : File N). is_later v k.version ≡ false) e h

  abbrev pub Grows : Fs N → Fs N → Type 0
  Grows fs fs' =
      (uri : Bytes) (f : File N)
      → fs.files uri ≡ some f
      → (g : File N) × (fs'.files uri ≡ some g) × Later f g

  pub Grows-refl : (fs : Fs N) → Grows fs fs
  Grows-refl fs uri f e = (f, e, inr refl)

newer_offers : (v old : ℤ) → is_later v (newer v old) ≡ false
newer_offers v old = elim (Bool-cases (is_later v old)) [
  | inl later ↦ rw later (is_later_irrefl v)
  | inr stale ↦ rw (stale, stale) refl
]

module _ (platform : Platform) {N : Type 0} (sdk : Sdk) (decoder : Decoder N) where
  moved :
      (v : ℤ) (f g : File N)
      → g.version ≡ newer v f.version
      → (is_later v f.version ≡ false → g ≡ f)
      → Later f g
  moved v f g e stays = elim (Bool-cases (is_later v f.version)) [
    | inl later ↦ inl (subst (λ k. is_later k f.version ≡ true) (sym (e ∙ newest later)) later)
    | inr stale ↦ inr (sym (stays stale))
  ]
    where
      newest : is_later v f.version ≡ true → newer v f.version ≡ v
      newest h = rw h refl

  skipped_stays :
      (v : ℤ) (content : Bytes) (f : File N)
      → is_later v f.version ≡ false
      → update_skipped v content f ≡ f
  unfolding update_skipped
  skipped_stays v content f h = rw (h, update_skipped) refl

  update_stays :
      (v : ℤ) (content : Bytes) (f : File N)
      → is_later v f.version ≡ false
      → (update sdk decoder v content f).0 ≡ f
  unfolding update
  update_stays v content f h = rw (h, update) refl

  skipped-moved : (v : ℤ) (content : Bytes) (f : File N) → Later f (update_skipped v content f)
  skipped-moved v content f =
      moved v f (update_skipped v content f)
        (update_skipped-version platform sdk decoder v content f).1 (skipped_stays v content f)

  -- What an update with this version leaves: the file has moved, and where the call succeeds the
  -- version is not later than that of the file.
  abbrev Moves : ℤ → File N → File N × Done → Type 0
  Moves v f (g, r) = Later f g × (r ≡ ok tt → is_later v g.version ≡ false)

  ended-Moves :
      (v : ℤ) (f : File N) (r : File N × Bool)
      → Later f r.0
      → is_later v r.0.version ≡ false
      → Moves v f (ended platform sdk decoder r)
  ended-Moves v f (g, true) h k = (h, λ _. k)
  ended-Moves v f (g, false) h k = (h, λ e. cc)

  offered_by : (v : ℤ) (f g : File N) → g.version ≡ newer v f.version → is_later v g.version ≡ false
  offered_by v f g e = subst (λ k. is_later v k ≡ false) (sym e) (newer_offers v f.version)

  update_as-Moves :
      (skip : Exec Bool) (f : File N) (content : Bytes) (v : ℤ)
      → Moves v f (update_as platform sdk decoder skip f content v)
  unfolding update_as
  update_as-Moves (ok true) f content v = (
    skipped-moved v content f,
    λ _.
        offered_by v f (update_skipped v content f)
          (update_skipped-version platform sdk decoder v content f).1,
  )
  update_as-Moves (ok false) f content v =
      let e = (update-version platform sdk decoder v content f).1 in
      ended-Moves v f (update sdk decoder v content f)
        (moved v f (update sdk decoder v content f).0 e (update_stays v content f))
        (offered_by v f (update sdk decoder v content f).0 e)
  update_as-Moves (err e) f content v = (inr refl, λ h. cc)
  update_as-Moves panic f content v = (inr refl, λ h. cc)
  update_as-Moves out_of_fuel f content v = (inr refl, λ h. cc)

  -- What a call of the file system that closes nothing leaves: all files have moved on, and where it
  -- succeeds, the file of the URI has no earlier version than the one offered.
  abbrev pub Offers : Bytes → ℤ → Fs N → Fs N × Done → Type 0
  Offers uri v fs (fs', r) =
      Grows fs fs'
      × (r ≡ ok tt → (g : File N) × (fs'.files uri ≡ some g) × (is_later v g.version ≡ false))

  put-Grows :
      (fs : Fs N) (uri : Bytes) (g : File N)
      → ((f : File N) → fs.files uri ≡ some f → Later f g)
      → Grows fs (put platform sdk decoder uri (some g) fs)
  unfolding put
  put-Grows fs uri g h u f e = elim (Bool-cases (equal u uri)) [
    | inl same ↦
        (g, rw same refl, h f (subst (λ x. fs.files x ≡ some f) ((equal_iff u uri).0 same) e))
    | inr other ↦ (f, rw other e, inr refl)
  ]

  put_self :
      (fs : Fs N) (uri : Bytes) (g : File N)
      → (put platform sdk decoder uri (some g) fs).files uri ≡ some g
  unfolding put
  put_self fs uri g = rw (equal_refl uri) refl

  store_opened-Offers :
      (fs : Fs N) (uri : Bytes) (v : ℤ) (r : File N × Done)
      → fs.files uri ≡ none
      → (r.1 ≡ ok tt → is_later v r.0.version ≡ false)
      → Offers uri v fs (store_opened platform sdk decoder fs uri r)
  unfolding store_opened
  store_opened-Offers fs uri v (f, ok u) fresh h =
      (put-Grows fs uri f (λ g e. cc), λ _. (f, put_self fs uri f, h refl))
  store_opened-Offers fs uri v (f, err e) fresh h = (Grows-refl fs, λ k. cc)
  store_opened-Offers fs uri v (f, panic) fresh h = (Grows-refl fs, λ k. cc)
  store_opened-Offers fs uri v (f, out_of_fuel) fresh h = (Grows-refl fs, λ k. cc)

  pub open_file-Offers :
      (fs : Fs N) (uri content : Bytes) (v : ℤ)
      → Offers uri v fs (open_file platform sdk decoder fs uri content v)
  unfolding open_file has_file update_as_needed
  open_file-Offers fs uri content v = elim (Option-cases (fs.files uri)) [
    | inr (f, e) ↦ rw (e, has_file) (Grows-refl fs, λ k. cc)
    | inl e ↦
        let fresh : File N = new_file platform sdk decoder uri in
        rw (e, has_file)
          (store_opened-Offers fs uri v
            (update_as platform sdk decoder (should_skip_file platform fs.file_patterns uri content)
              fresh content v)
            e
            (update_as-Moves (should_skip_file platform fs.file_patterns uri content) fresh content
              v).1)
  ]

  pub update_file-Offers :
      (fs : Fs N) (uri content : Bytes) (v : ℤ)
      → Offers uri v fs (update_file platform sdk decoder fs uri content v)
  unfolding update_file update_found update_as_needed
  update_file-Offers fs uri content v = elim (Option-cases (fs.files uri)) [
    | inl e ↦ rw (e, update_found) (Grows-refl fs, λ k. cc)
    | inr (f, e) ↦
        let r : File N × Done =
          update_as platform sdk decoder (should_skip_file platform fs.file_patterns f.uri content)
            f content v in
        let moves : Moves v f r =
          update_as-Moves (should_skip_file platform fs.file_patterns f.uri content) f content v in
        rw (e, update_found)
          (
            put-Grows fs uri r.0
                (λ g e'. subst (λ x. Later x r.0) (the_file f g (sym e ∙ e')) moves.0),
            λ done. (r.0, put_self fs uri r.0, moves.1 done),
          )
  ]
    where
      the_file : (f g : File N) → ◌≡◌ {A = Option (File N)} (some f) (some g) → f ≡ g
      the_file f g h = cc
