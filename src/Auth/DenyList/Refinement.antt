-- ===== src/Auth/DenyList/Refinement.antt =====
-- The deny list against a record of revocations from which nothing is ever removed.
use madinaty_ai_core_mesh.Base.{
  ℕ, ◌*◌, ◌≤◌, ◌≡◌, refl, sym, ap, ◌∙◌, arith, Bool, false, not, ◌&&◌, Option, none, some, ltb,
  if◌then◌else◌, List, [], ◌∷◌,
}
use madinaty_ai_core_mesh.Base.Text.{Text, is_empty, same_text_iff, text_equality}
use madinaty_ai_core_mesh.Base.Dict.{put, delete, retain, no_entries, filter_entry}
use madinaty_ai_core_mesh.Auth.DenyList.{DenyList, revoke, is_revoked, sweep_expired}

pub data Op : Type 0 where
  revokes : Text → ℕ → Op
  asks : Text → Op
  sweeps : Op

-- The calls, each at its time, and the answers to the questions among them.
unfoldable pub run : List (ℕ × Op) → DenyList → List Bool × DenyList
run [] list = ([], list)
run ((now, revokes jti exp) ∷ ops) list = run ops (revoke now jti exp list)
run ((now, asks jti) ∷ ops) list =
    let (answer, after) = is_revoked now jti list in
    let (answers, end) = run ops after in (answer ∷ answers, end)
run ((now, sweeps) ∷ ops) list = run ops (sweep_expired now list)

-- The same calls, on the revocations made: for each id the last expiry that was not past when it
-- was given.
abbrev is_unexpired : ℕ → Option ℕ → Bool
is_unexpired now none = false
is_unexpired now (some e) = ltb now e

unfoldable pub recall : List (ℕ × Op) → (Text → Option ℕ) → List Bool
recall [] made = []
recall ((now, revokes jti exp) ∷ ops) made =
    recall ops
      (if not (is_empty jti) && ltb now (exp * 1000) then put jti (exp * 1000) made else made)
recall ((now, asks jti) ∷ ops) made =
    (not (is_empty jti) && is_unexpired now (made jti)) ∷ recall ops made
recall ((now, sweeps) ∷ ops) made = recall ops made

-- The times do not go back, and none is before `t`.
abbrev pub IsOrdered : ℕ → List (ℕ × Op) → Type 0
IsOrdered t [] = Unit {0}
IsOrdered t ((now, _) ∷ ops) = (t ≤ now) × IsOrdered now ops

-- The two agree on what has not expired.
abbrev Agree : ℕ → DenyList → (Text → Option ℕ) → Type 0
Agree t list made = (jti : Text) → filter_entry (ltb t) (list jti) ≡ filter_entry (ltb t) (made jti)

filter_later :
    (t now : ℕ) (o : Option ℕ)
    → t ≤ now
    → filter_entry (ltb now) (filter_entry (ltb t) o) ≡ filter_entry (ltb now) o
filter_later t now none h = refl
filter_later t now (some e) h = ground arith

Agree-later :
    (t now : ℕ) (list : DenyList) (made : Text → Option ℕ)
    → t ≤ now
    → Agree t list made
    → Agree now list made
Agree-later t now list made h agree jti =
    sym (filter_later t now (list jti) h)
    ∙ ap (filter_entry (ltb now)) (agree jti)
    ∙ filter_later t now (made jti) h

Agree-revoke :
    (now : ℕ) (jti : Text) (exp : ℕ) (list : DenyList) (made : Text → Option ℕ)
    → Agree now list made
    → Agree now
        (revoke now jti exp list)
        (if not (is_empty jti) && ltb now (exp * 1000) then put jti (exp * 1000) made else made)
unfolding revoke put
Agree-revoke now jti exp list made agree q = ground (arith, agree q)

Agree-ask :
    (now : ℕ) (jti : Text) (list : DenyList) (made : Text → Option ℕ)
    → Agree now list made
    → Agree now (is_revoked now jti list).1 made
unfolding is_revoked delete
Agree-ask now jti list made agree q = ground (arith, agree q, (same_text_iff q jti).0)

Agree-sweep :
    (now : ℕ) (list : DenyList) (made : Text → Option ℕ)
    → Agree now list made
    → Agree now (sweep_expired now list) made
unfolding sweep_expired retain
Agree-sweep now list made agree q = ground (arith, agree q)

ask_answers :
    (now : ℕ) (jti : Text) (list : DenyList) (made : Text → Option ℕ)
    → Agree now list made
    → (is_revoked now jti list).0 ≡ (not (is_empty jti) && is_unexpired now (made jti))
unfolding is_revoked
ask_answers now jti list made agree = ground (arith, agree jti)

run-recall :
    (t : ℕ) (ops : List (ℕ × Op)) (list : DenyList) (made : Text → Option ℕ)
    → IsOrdered t ops
    → Agree t list made
    → (run ops list).0 ≡ recall ops made
unfolding run recall
run-recall t [] list made _ agree = refl
run-recall t ((now, revokes jti exp) ∷ ops) list made (h, hs) agree =
    run-recall now ops (revoke now jti exp list)
      (if not (is_empty jti) && ltb now (exp * 1000) then put jti (exp * 1000) made else made) hs
      (Agree-revoke now jti exp list made (Agree-later t now list made h agree))
run-recall t ((now, asks jti) ∷ ops) list made (h, hs) agree = cc (
  ask_answers now jti list made later,
  run-recall now ops (is_revoked now jti list).1 made hs (Agree-ask now jti list made later),
)
  where
    later : Agree now list made
    later = Agree-later t now list made h agree
run-recall t ((now, sweeps) ∷ ops) list made (h, hs) agree =
    run-recall now ops (sweep_expired now list) made hs
      (Agree-sweep now list made (Agree-later t now list made h agree))

-- On a deny list that starts empty, at times that do not go back, `isRevoked` answers as if no
-- entry were ever dropped: an id is revoked exactly when it is not empty, `revoke` was called for
-- it with an expiry then in the future, and the last such expiry is in the future now. Where the
-- removals on look-up and the sweeps fall cannot be told from the answers.
pub run_refines :
    (ops : List (ℕ × Op)) → IsOrdered 0 ops → (run ops no_entries).0 ≡ recall ops no_entries
run_refines ops ordered = run-recall 0 ops no_entries no_entries ordered (λ _. refl)
