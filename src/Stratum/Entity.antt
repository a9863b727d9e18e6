-- ===== src/Stratum/Entity.antt =====
-- `ensureClientEntity` of src/models/StratumV1Client.ts: the session's row is asked for once, by the first
-- share, and the shares that come before it is there wait for the same promise. The handlers of the shares
-- interleave: a call and the answer of `ClientService.insert` are steps of their own.
use elektron_net_ppool.Common.{
  ℕ, ◌+◌, ◌≤◌, ◌≡◌, refl, subst, ◌∙◌, ◌⊎◌, inl, inr, List, [], ◌∷◌, arith,
}

-- `creatingEntity`
pub data Creating : Type 0 where
  not_started under_way rejected : Creating
  resolved : Creating

-- What has become of the calls, with the insertions asked for.
pub record Session : Type 0 where
  pub creating : Creating
  pub inserts : ℕ
  pub waiting : ℕ
  pub passed : ℕ
  pub threw : ℕ

abbrev pub new_session : Session
new_session = record { creating = not_started; inserts = 0; waiting = 0; passed = 0; threw = 0 }

-- A call: it returns at once where there is a row, starts the insertion where nothing was started, and else
-- waits for what was started; a promise that was rejected is thrown again.
abbrev pub called : Creating → Session → Session
called not_started s = record s {
  creating = under_way;
  inserts = s.inserts + 1;
  waiting = s.waiting + 1;
}
called under_way s = record s { waiting = s.waiting + 1 }
called resolved s = record s { passed = s.passed + 1 }
called rejected s = record s { threw = s.threw + 1 }

unfoldable pub ensure_client_entity : Session → Session
ensure_client_entity s = called s.creating s

-- The answer of `insert`, to all that wait; without a promise there is none to answer.
abbrev pub answered : Creating → (inserted : Creating) → Session → Session
answered under_way resolved s = record s {
  creating = resolved;
  waiting = 0;
  passed = s.passed + s.waiting;
}
answered under_way rejected s = record s {
  creating = rejected;
  waiting = 0;
  threw = s.threw + s.waiting;
}
answered _ _ s = s

pub data Event : Type 0 where
  share inserted failed : Event

unfoldable pub happen : Event → Session → Session
unfolding ensure_client_entity
happen share s = ensure_client_entity s
happen inserted s = answered s.creating resolved s
happen failed s = answered s.creating rejected s

unfoldable pub run : List Event → Session → Session
unfolding happen
run [] s = s
run (e ∷ events) s = run events (happen e s)

abbrev pub shares_of : List Event → ℕ
shares_of [] = 0
shares_of (share ∷ events) = 1 + shares_of events
shares_of (inserted ∷ events) = shares_of events
shares_of (failed ∷ events) = shares_of events

-- Where each call stands, by what became of the promise.
unfoldable pub Stands : Creating → (inserts waiting passed threw : ℕ) → Type 0
Stands not_started inserts waiting passed threw =
    (inserts ≡ 0) × (waiting ≡ 0) × (passed ≡ 0) × (threw ≡ 0)
Stands under_way inserts waiting passed threw = (inserts ≡ 1) × (passed ≡ 0) × (threw ≡ 0)
Stands resolved inserts waiting passed threw = (inserts ≡ 1) × (waiting ≡ 0) × (threw ≡ 0)
Stands rejected inserts waiting passed threw = (inserts ≡ 1) × (waiting ≡ 0) × (passed ≡ 0)

-- All calls are accounted for, and stand as the promise does.
pub record IsSession (shares : ℕ) (s : Session) : Type 0 where
  pub all : s.waiting + s.passed + s.threw ≡ shares
  pub stands : Stands s.creating s.inserts s.waiting s.passed s.threw

abbrev pub after : Event → ℕ → ℕ
after share n = n + 1
after inserted n = n
after failed n = n

abbrev with_creating : Creating → Session → Session
with_creating c s = record s { creating = c }

called-IsSession :
    (c : Creating) (n : ℕ) (s : Session)
    → s.waiting + s.passed + s.threw ≡ n
    → Stands c s.inserts s.waiting s.passed s.threw
    → IsSession (n + 1) (called c (with_creating c s))
unfolding Stands
called-IsSession not_started n s e h = record {
  all = omega (arith, e);
  stands = (omega (arith, h.0), h.2, h.3);
}
called-IsSession under_way n s e h = record { all = omega (arith, e); stands = h }
called-IsSession resolved n s e h = record { all = omega (arith, e); stands = h }
called-IsSession rejected n s e h = record { all = omega (arith, e); stands = h }

answered-IsSession :
    (c answer : Creating) (n : ℕ) (s : Session)
    → s.waiting + s.passed + s.threw ≡ n
    → Stands c s.inserts s.waiting s.passed s.threw
    → IsSession n (answered c answer (with_creating c s))
unfolding Stands
answered-IsSession under_way resolved n s e h = record {
  all = omega (arith, e);
  stands = (h.0, refl, h.2);
}
answered-IsSession under_way rejected n s e h = record {
  all = omega (arith, e);
  stands = (h.0, refl, h.1);
}
answered-IsSession under_way not_started n s e h = record { all = e; stands = h }
answered-IsSession under_way under_way n s e h = record { all = e; stands = h }
answered-IsSession not_started answer n s e h = record { all = e; stands = h }
answered-IsSession resolved answer n s e h = record { all = e; stands = h }
answered-IsSession rejected answer n s e h = record { all = e; stands = h }

happen-IsSession :
    (event : Event) (n : ℕ) (s : Session)
    → IsSession n s
    → IsSession (after event n) (happen event s)
unfolding happen ensure_client_entity
happen-IsSession share n s h = called-IsSession s.creating n s h.all h.stands
happen-IsSession inserted n s h = answered-IsSession s.creating resolved n s h.all h.stands
happen-IsSession failed n s h = answered-IsSession s.creating rejected n s h.all h.stands

after-shares :
    (event : Event) (n : ℕ) (events : List Event)
    → after event n + shares_of events ≡ n + shares_of (event ∷ events)
after-shares share n events = omega arith
after-shares inserted n events = refl
after-shares failed n events = refl

run-IsSession :
    (events : List Event) (n : ℕ) (s : Session)
    → IsSession n s
    → IsSession (n + shares_of events) (run events s)
unfolding run
run-IsSession [] n s h = subst (λ m. IsSession m s) (omega arith) h
run-IsSession (e ∷ events) n s h =
    subst (λ m. IsSession m (run events (happen e s))) (after-shares e n events)
      (run-IsSession events (after e n) (happen e s) (happen-IsSession e n s h))

all_or_none :
    (c : Creating) (inserts waiting passed threw : ℕ)
    → Stands c inserts waiting passed threw
    → (inserts ≤ 1) × ((passed ≡ 0) ⊎ (threw ≡ 0))
unfolding Stands
all_or_none not_started inserts waiting passed threw h = (omega (arith, h.0), inl h.2)
all_or_none under_way inserts waiting passed threw h = (omega (arith, h.0), inl h.1)
all_or_none resolved inserts waiting passed threw h = (omega (arith, h.0), inr h.2)
all_or_none rejected inserts waiting passed threw h = (omega (arith, h.0), inl h.2)

-- However the shares of a session and the answers of the insertion interleave: the row is asked for at most
-- once, every share waits, has passed or has thrown, and never do some pass and others throw.
pub run_inserts_once :
    (events : List Event)
    → let s = run events new_session in
      (s.inserts ≤ 1)
      × (s.waiting + s.passed + s.threw ≡ shares_of events)
      × ((s.passed ≡ 0) ⊎ (s.threw ≡ 0))
unfolding Stands
run_inserts_once events =
    let s = run events new_session in
    let h =
      run-IsSession events 0 new_session
        (record { all = refl; stands = (refl, refl, refl, refl) }) in
    let k = all_or_none s.creating s.inserts s.waiting s.passed s.threw h.stands in
    (k.0, h.all ∙ omega arith, k.1)

called-rejected :
    (c : Creating) (s : Session) → c ≡ rejected → called c s ≡ record s { threw = s.threw + 1 }
called-rejected c s h = rw h refl

answered-rejected : (c answer : Creating) (s : Session) → c ≡ rejected → answered c answer s ≡ s
answered-rejected c answer s h = rw h refl

-- Once an insertion has failed, it is never asked for again, and every later share of the session throws.
pub rejected_throws :
    (events : List Event) (s : Session)
    → s.creating ≡ rejected
    → ((run events s).threw ≡ s.threw + shares_of events)
      × ((run events s).inserts ≡ s.inserts)
      × ((run events s).passed ≡ s.passed)
unfolding run happen ensure_client_entity
rejected_throws [] s h = (omega arith, refl, refl)
rejected_throws (share ∷ events) s h =
    let k = rejected_throws events (record s { threw = s.threw + 1 }) h in
    rw (run, called-rejected s.creating s h) (k.0 ∙ omega arith, k.1, k.2)
rejected_throws (inserted ∷ events) s h =
    rw (run, answered-rejected s.creating resolved s h) (rejected_throws events s h)
rejected_throws (failed ∷ events) s h =
    rw (run, answered-rejected s.creating rejected s h) (rejected_throws events s h)
