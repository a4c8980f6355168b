-- ===== src/Server/Fresh/Notified.antt =====
-- internal/server/server.go: what the loop of the diagnostics notifies, as requests run beside it.
use nobl9_language_server.Base.{
  ℕ, ◌≡◌, ◌⊎◌, refl, sym, ap, ◌∙◌, inl, inr, true, false, Option, none, some, List, [], ◌∷◌, ◌++◌,
  All, All-append, Exec, ok, err, panic, out_of_fuel, Done, if_intro, arith,
}
use mathlib.Core.Path.{subst}
use nobl9_language_server.Text.{Bytes}
use nobl9_language_server.Files.{File, ℤ, pos, negsuc, is_later, Decoder}
use nobl9_language_server.Files.Simple.{Sdk}
use nobl9_language_server.Files.System.{Platform, Fs, get_file}
use nobl9_language_server.Messages.{Diagnostic}
use nobl9_language_server.Diagnostics.{Diagnostics}
use nobl9_language_server.Diagnostics.Handler.{
  Published, handle, publish, published, sort, same_version,
}
use nobl9_language_server.Server.{TextDocumentItem, Server, new_server}
use nobl9_language_server.Server.Mux.{Codec, HandlersRegistry, handle_request}
use nobl9_language_server.Server.Steps.{
  send_update, begun_with, begin_update, ended_with, end_update, Step, requested, sent, began,
  ended, notifies, notify_update, Reaches, started, next,
}
use nobl9_language_server.Server.Order.{Later, Later-trans, Grows}
use nobl9_language_server.Server.Fresh.{IsHeld, SendingIsHeld, DiagnosingIsHeld, IsOrdered}
use nobl9_language_server.Server.Fresh.Requests.{ClosesNothing, handle_request-IsQuiet}

same_version→same : (a b : ℤ) → same_version a b ≡ true → a ≡ b
unfolding same_version
same_version→same (pos a) (pos b) h = ground arith
same_version→same (pos a) (negsuc b) h = cc
same_version→same (negsuc a) (pos b) h = cc
same_version→same (negsuc a) (negsuc b) h = ground arith

module _ (platform : Platform) {N : Type 0} (sdk : Sdk) (decoder : Decoder N)
    (diagnose : File N → Diagnostics) where
  sent-IsOrdered :
      (s : Server N) (item : TextDocumentItem)
      → s.sending ≡ some item
      → IsOrdered s
      → IsOrdered (send_update item s)
  unfolding send_update
  sent-IsOrdered s item e (a, b, c) =
      let held : IsHeld s.files item = subst (λ o. SendingIsHeld s.files o) e a in
      (tt, All-append (IsHeld s.files) s.document_updates (item ∷ []) b (held, tt), c)

  begun-IsHeld :
      (fs : Fs N) (item : TextDocumentItem)
      → IsHeld fs item
      → DiagnosingIsHeld fs (
          begun_with platform sdk decoder diagnose item (get_file platform sdk decoder fs item.uri))
  unfolding get_file
  begun-IsHeld fs item (f, e, v) =
      rw (e, get_file)
        (if_intro {A = Option (TextDocumentItem × File N)} (λ o. DiagnosingIsHeld fs o) f.skip
          (λ _. tt) (λ _. (v, (f, e, inr refl))))

  began-IsOrdered :
      (s : Server N) (item : TextDocumentItem) (rest : List TextDocumentItem)
      → s.document_updates ≡ item ∷ rest
      → IsOrdered s
      → IsOrdered (begin_update platform sdk decoder diagnose item rest s)
  unfolding begin_update
  began-IsOrdered s item rest e (a, b, c) =
      let held : All (IsHeld s.files) (item ∷ rest) = subst (λ is. All (IsHeld s.files) is) e b in
      (a, held.1, begun-IsHeld s.files item held.0)

  ended-IsOrdered :
      (s : Server N) (r : Exec (Option Published))
      → IsOrdered s
      → IsOrdered (ended_with platform sdk decoder diagnose r s)
  ended-IsOrdered s (ok none) (a, b, c) = (a, b, tt)
  ended-IsOrdered s (ok (some p)) (a, b, c) = (a, b, tt)
  ended-IsOrdered s (err e) (a, b, c) = (a, b, tt)
  ended-IsOrdered s panic (a, b, c) = (a, b, tt)
  ended-IsOrdered s out_of_fuel o = o

  -- The diagnosis of a file that is there, under its version.
  abbrev pub IsFresh : Fs N → Published → Type 0
  IsFresh fs p =
      (g : File N) × (fs.files p.uri ≡ some g)
      × (g.version ≡ p.version)
      × ((ds : List Diagnostic) × (diagnose g ≡ ok ds) × (p.diagnostics ≡ sort ds))

  -- The diagnosis of a file with the version that is notified, of which the file that is there is the
  -- same or a later version.
  abbrev pub IsFormer : Fs N → Published → Type 0
  IsFormer fs p =
      (g : File N) × (h : File N) × (fs.files p.uri ≡ some h)
      × Later g h
      × (g.version ≡ p.version)
      × ((ds : List Diagnostic) × (diagnose g ≡ ok ds) × (p.diagnostics ≡ sort ds))

  abbrev pub NotifyingIsFormer : Fs N → Option Published → Type 0
  NotifyingIsFormer fs none = Unit
  NotifyingIsFormer fs (some p) = IsFormer fs p

  IsFresh-IsFormer : (fs : Fs N) (p : Published) → IsFresh fs p → IsFormer fs p
  IsFresh-IsFormer fs p (g, e, v, d) = (g, g, e, inr refl, v, d)

  NotifyingIsFormer-Grows :
      (fs fs' : Fs N) (o : Option Published)
      → Grows fs fs'
      → NotifyingIsFormer fs o
      → NotifyingIsFormer fs' o
  NotifyingIsFormer-Grows fs fs' none grows h = tt
  NotifyingIsFormer-Grows fs fs' (some p) grows (g, h, e, later, v, d) =
      let (k, e', later') = grows p.uri h e in (g, k, e', Later-trans g h k later later', v, d)

  abbrev FreshOr : Fs N → Exec (Option Published) → Type 0
  FreshOr fs (ok (some p)) = IsFresh fs p
  FreshOr fs _ = Unit

  -- The file that the diagnosis began with is the one that is there, if that has the version of the
  -- update.
  unchanged :
      (item : TextDocumentItem) (f g : File N)
      → is_later item.version f.version ≡ false
      → Later f g
      → g.version ≡ item.version
      → f ≡ g
  unchanged item f g v (inr e) same = e
  unchanged item f g v (inl later) same =
      let never : is_later item.version f.version ≡ true =
        subst (λ k. is_later k f.version ≡ true) same later in
      cc

  publish-FreshOr :
      (fs : Fs N) (item : TextDocumentItem) (f g : File N) (ds : List Diagnostic)
      → fs.files item.uri ≡ some g
      → is_later item.version f.version ≡ false
      → Later f g
      → diagnose f ≡ ok ds
      → FreshOr fs (ok (publish item.uri item.version ds (ok g)))
  unfolding publish
  publish-FreshOr fs item f g ds e v later found =
      if_intro {A = Option Published} (λ o. FreshOr fs (ok o)) (same_version g.version item.version)
        (λ same.
          let is : g.version ≡ item.version = same_version→same g.version item.version same in
          let whole : f ≡ g = unchanged item f g v later is in
          (g, e, is, (ds, ap diagnose (sym whole) ∙ found, refl)))
        (λ _. tt)

  published-FreshOr :
      (fs : Fs N) (item : TextDocumentItem) (f g : File N) (r : Diagnostics)
      → fs.files item.uri ≡ some g
      → is_later item.version f.version ≡ false
      → Later f g
      → diagnose f ≡ r
      → FreshOr fs (published item.uri item.version r (ok g))
  unfolding published
  published-FreshOr fs item f g (ok ds) e v later found =
      publish-FreshOr fs item f g ds e v later found
  published-FreshOr fs item f g (err x) e v later found = tt
  published-FreshOr fs item f g panic e v later found = tt
  published-FreshOr fs item f g out_of_fuel e v later found = tt

  handle-FreshOr :
      (fs : Fs N) (item : TextDocumentItem) (f : File N)
      → DiagnosingIsHeld fs (some (item, f))
      → FreshOr fs
          (handle diagnose item.uri item.version (ok f) (get_file platform sdk decoder fs item.uri))
  unfolding handle get_file
  handle-FreshOr fs item f (v, (g, e, later)) =
      rw (e, get_file)
        (if_intro {A = Exec (Option Published)} (λ r. FreshOr fs r) f.skip (λ _. tt)
          (λ _. published-FreshOr fs item f g (diagnose f) e v later refl))

  -- What a step decides to notify, and what it notifies: nothing; or a fresh diagnosis is decided on;
  -- or what was decided on is notified.
  abbrev pub NotifiesFresh : Server N → Server N → Type 0
  NotifiesFresh s s' =
      ((s'.notified ≡ s.notified)
        × ((s'.notifying ≡ s.notifying)
            ⊎ ((p : Published) × (s'.notifying ≡ some p) × IsFresh s.files p)))
      ⊎ ((p : Published) × (s'.notified ≡ s.notified ++ p ∷ [])
          × (s.notifying ≡ some p)
          × IsFormer s.files p)

  ended-NotifiesFresh :
      (s : Server N) (r : Exec (Option Published))
      → FreshOr s.files r
      → NotifiesFresh s (ended_with platform sdk decoder diagnose r s)
  ended-NotifiesFresh s (ok none) h = inl (refl, inl refl)
  ended-NotifiesFresh s (ok (some p)) h = inl (refl, inr (p, refl, h))
  ended-NotifiesFresh s (err e) h = inl (refl, inl refl)
  ended-NotifiesFresh s panic h = inl (refl, inl refl)
  ended-NotifiesFresh s out_of_fuel h = inl (refl, inl refl)

  -- The order, and what the loop is about to notify.
  abbrev pub IsInOrder : Server N → Type 0
  IsInOrder s = IsOrdered s × NotifyingIsFormer s.files s.notifying

  ended-IsInOrder :
      (s : Server N) (r : Exec (Option Published))
      → FreshOr s.files r
      → IsInOrder s
      → IsInOrder (ended_with platform sdk decoder diagnose r s)
  ended-IsInOrder s (ok none) h (o, n) = (ended-IsOrdered s (ok none) o, n)
  ended-IsInOrder s (ok (some p)) h (o, n) =
      (ended-IsOrdered s (ok (some p)) o, IsFresh-IsFormer s.files p h)
  ended-IsInOrder s (err e) h (o, n) = (ended-IsOrdered s (err e) o, n)
  ended-IsInOrder s panic h (o, n) = (ended-IsOrdered s panic o, n)
  ended-IsInOrder s out_of_fuel h (o, n) = (o, n)

  ended-FreshOr :
      (s : Server N) (item : TextDocumentItem) (f : File N)
      → s.diagnosing ≡ some (item, f)
      → IsOrdered s
      → FreshOr s.files (
          handle diagnose item.uri item.version
            (ok f)
            (get_file platform sdk decoder s.files item.uri))
  ended-FreshOr s item f e (a, b, c) =
      handle-FreshOr s.files item f (subst (λ d. DiagnosingIsHeld s.files d) e c)

  module _ {Raw : Type 0} (codec : Codec Raw) (registry : HandlersRegistry N) (lsp_version : Bytes)
      (close : ℕ → Done) where
    -- Steps that close no file.
    abbrev pub OpenStep : Server N → Server N → Type 0
    OpenStep =
        Step platform sdk decoder diagnose codec registry lsp_version close
          (ClosesNothing platform sdk decoder codec registry lsp_version close)

    abbrev pub OpenReaches : List Bytes → Server N → Type 0
    OpenReaches =
        Reaches platform sdk decoder diagnose codec registry lsp_version close
          (ClosesNothing platform sdk decoder codec registry lsp_version close)

    Step-IsInOrder : {s s' : Server N} → OpenStep s s' → IsInOrder s → IsInOrder s'
    unfolding end_update send_update begin_update notify_update
    Step-IsInOrder {s} (requested conn request allowed idle returns) (o, n) =
        let (keeps, _, same, grows) =
          handle_request-IsQuiet platform sdk decoder codec registry lsp_version close conn request
            s allowed in
        let s' : Server N =
          (handle_request platform sdk decoder codec registry lsp_version close conn request s).0 in
        (
          keeps o,
          subst (λ m. NotifyingIsFormer s'.files m) (sym same)
              (NotifyingIsFormer-Grows s.files s'.files s.notifying grows n),
        )
    Step-IsInOrder {s} (sent item e room) (o, n) = (sent-IsOrdered s item e o, n)
    Step-IsInOrder {s} (began item rest started_loop idle told e) (o, n) =
        (began-IsOrdered s item rest e o, n)
    Step-IsInOrder {s} (ended item f e) (o, n) =
        ended-IsInOrder s
          (handle diagnose item.uri item.version (ok f)
            (get_file platform sdk decoder s.files item.uri))
          (ended-FreshOr s item f e o) (o, n)
    Step-IsInOrder {s} (notifies p e) (o, n) = (o, tt)

    Reaches-IsInOrder :
        {patterns : List Bytes} {s : Server N} → OpenReaches patterns s → IsInOrder s
    unfolding new_server
    Reaches-IsInOrder started = ((tt, tt, tt), tt)
    Reaches-IsInOrder (next reaches step) = Step-IsInOrder step (Reaches-IsInOrder reaches)

    Step-NotifiesFresh : {s s' : Server N} → OpenStep s s' → IsInOrder s → NotifiesFresh s s'
    unfolding end_update send_update begin_update notify_update
    Step-NotifiesFresh {s} (requested conn request allowed idle returns) h =
        let (_, notified, notifying, _) =
          handle_request-IsQuiet platform sdk decoder codec registry lsp_version close conn request
            s allowed in
        inl (notified, inl notifying)
    Step-NotifiesFresh {s} (sent item e room) h = inl (refl, inl refl)
    Step-NotifiesFresh {s} (began item rest started_loop idle told e) h = inl (refl, inl refl)
    Step-NotifiesFresh {s} (ended item f e) (o, n) =
        ended-NotifiesFresh s
          (handle diagnose item.uri item.version (ok f)
            (get_file platform sdk decoder s.files item.uri))
          (ended-FreshOr s item f e o)
    Step-NotifiesFresh {s} (notifies p e) (o, n) =
        inr (p, refl, e, subst (λ m. NotifyingIsFormer s.files m) e n)

    -- However requests, sends, diagnoses and notifications interleave, as long as no file is closed:
    -- what the loop decides to notify is, when it decides, the diagnosis of the very file that is
    -- open under its URI, sorted, under the version of that file, and never one of an earlier text.
    -- What a step notifies was decided on before; by then the file that is open is the one diagnosed
    -- or has a later version.
    pub Reaches-NotifiesFresh :
        {patterns : List Bytes} {s s' : Server N}
        → OpenReaches patterns s
        → OpenStep s s'
        → NotifiesFresh s s'
    Reaches-NotifiesFresh reaches step = Step-NotifiesFresh step (Reaches-IsInOrder reaches)
