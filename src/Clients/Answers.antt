-- ===== src/Clients/Answers.antt =====
-- Every caller of `insert` is answered once. A flush waits for the database, so that other calls, and
-- other flushes, come between its two halves.
use elektron_net_ppool.Common.{
  ℕ, zero, suc, ◌+◌, ◌≡◌, refl, String, Bool, Option, none, some, List, [], ◌∷◌, ◌++◌, map,
  if◌then◌else◌, arith,
}
use elektron_net_ppool.Common.Float.{Float64}
use elektron_net_ppool.Statistics.{Owner}
use elektron_net_ppool.Clients.{
  ClientRow, PartialClient, ClientService, insert, insert_all, Result, inserted, failed, results_of,
  insert_clients, finish_insert, kill_dead_clients, client_heartbeat, delete_session,
  delete_old_clients, update_client_difficulty_if_higher,
}

module _ (f : Float64) where
  -- The service with the batches that the database has not answered yet.
  pub record Running : Type 0 where
    pub service : ClientService f
    pub in_flight : List (List (PartialClient f))

  -- What happens, with the time where the service reads the clock: `flushed` starts a flush, and
  -- `answered` is the database's answer to one of the batches, in any order.
  pub data Call : Type 0 where
    asked : PartialClient f → Call
    flushed : Call
    answered : (batch now : ℕ) → Call
    swept_dead swept_old : (now : ℕ) → Call
    beat : Owner → f.F → (updated_at : ℕ) → Call
    ended : (now : ℕ) → (session_id : String) → Call
    bettered : (now : ℕ) → (session_id : String) → f.F → Call

  -- An empty queue is not sent.
  abbrev launch :
      List (PartialClient f) → List (List (PartialClient f)) → List (List (PartialClient f))
  launch [] batches = batches
  launch (c ∷ cs) batches = (c ∷ cs) ∷ batches

  -- One of the batches and the others; where there is none, nothing.
  abbrev pull :
      ℕ → List (List (PartialClient f)) → List (PartialClient f) × List (List (PartialClient f))
  pull n [] = ([], [])
  pull zero (b ∷ batches) = (b, batches)
  pull (suc n) (b ∷ batches) = let r = pull n batches in (r.0, b ∷ r.1)

  abbrev on_rows : Running → (List (ClientRow f) → List (ClientRow f)) → List (Result f) × Running
  on_rows s g = ([], record s { service = record s.service { rows = g s.service.rows } })

  abbrev start_flush : Running → Running
  start_flush s =
      let (batch, service) = insert_clients f s.service in
      record { service = service; in_flight = launch batch s.in_flight }

  abbrev end_flush : (batch now : ℕ) → Running → List (Result f) × Running
  end_flush n now s =
      let (batch, others) = pull n s.in_flight in
      let (results, service) = finish_insert f now batch s.service in
      (results, record { service = service; in_flight = others })

  unfoldable pub call : Call → Running → List (Result f) × Running
  unfolding insert insert_clients finish_insert
  call (asked c) s = ([], record s { service = insert f c s.service })
  call flushed s = ([], start_flush s)
  call (answered n now) s = end_flush n now s
  call (swept_dead now) s = on_rows s (kill_dead_clients f now)
  call (swept_old now) s = on_rows s (delete_old_clients f now)
  call (beat k hash_rate updated_at) s = on_rows s (client_heartbeat f k hash_rate updated_at)
  call (ended now session_id) s = on_rows s (delete_session f now session_id)
  call (bettered now session_id d) s =
      on_rows s (update_client_difficulty_if_higher f now session_id d)

  -- The calls in their order, with all the results.
  unfoldable pub calls : List Call → Running → List (Result f) × Running
  unfolding call
  calls [] s = ([], s)
  calls (c ∷ cs) s =
      let (results, s') = call c s in let (later, s'') = calls cs s' in (results ++ later, s'')

  abbrev pub client_of : Result f → PartialClient f
  client_of (inserted c) = c
  client_of (failed c) = c

  abbrev pub asked_in : List Call → List (PartialClient f)
  asked_in [] = []
  asked_in (asked c ∷ cs) = c ∷ asked_in cs
  asked_in (_ ∷ cs) = asked_in cs

  module _ (p : PartialClient f → Bool) where
    -- How many of some clients pass a test.
    abbrev pub count : List (PartialClient f) → ℕ
    count [] = 0
    count (c ∷ cs) = (if p c then 1 else 0) + count cs

    abbrev count_all : List (List (PartialClient f)) → ℕ
    count_all [] = 0
    count_all (b ∷ batches) = count b + count_all batches

    abbrev pub count_answered : List (Result f) → ℕ
    count_answered results = count (map client_of results)

    -- Of the callers that wait in the queue or for the database.
    abbrev pub count_waiting : Running → ℕ
    count_waiting s = count s.service.insert_queue + count_all s.in_flight

    count-append : (xs ys : List (PartialClient f)) → count (xs ++ ys) ≡ count xs + count ys
    count-append [] ys = omega arith
    count-append (x ∷ xs) ys = omega (arith, count-append xs ys)

    count_answered-append :
        (xs ys : List (Result f))
        → count_answered (xs ++ ys) ≡ count_answered xs + count_answered ys
    count_answered-append [] ys = omega arith
    count_answered-append (x ∷ xs) ys = omega (arith, count_answered-append xs ys)

    count_inserted : (cs : List (PartialClient f)) → count_answered (map inserted cs) ≡ count cs
    count_inserted [] = refl
    count_inserted (c ∷ cs) = omega (arith, count_inserted cs)

    count_failed : (cs : List (PartialClient f)) → count_answered (map failed cs) ≡ count cs
    count_failed [] = refl
    count_failed (c ∷ cs) = omega (arith, count_failed cs)

    count_all-launch :
        (batch : List (PartialClient f)) (batches : List (List (PartialClient f)))
        → count_all (launch batch batches) ≡ count batch + count_all batches
    count_all-launch [] batches = omega arith
    count_all-launch (c ∷ cs) batches = refl

    count_all-pull :
        (n : ℕ) (batches : List (List (PartialClient f)))
        → count (pull n batches).0 + count_all (pull n batches).1 ≡ count_all batches
    count_all-pull n [] = omega arith
    count_all-pull zero (b ∷ batches) = refl
    count_all-pull (suc n) (b ∷ batches) = omega (arith, count_all-pull n batches)

    count_answered-results_of :
        (batch : List (PartialClient f)) (rows : List (ClientRow f))
        (o : Option (List (ClientRow f)))
        → count_answered (results_of f batch rows o).0 ≡ count batch
    count_answered-results_of batch rows none = count_failed batch
    count_answered-results_of batch rows (some rows') = count_inserted batch

    abbrev count_asked : Call → ℕ
    count_asked (asked c) = if p c then 1 else 0
    count_asked _ = 0

    count_asked-cons :
        (c : Call) (cs : List Call)
        → count (asked_in (c ∷ cs)) ≡ count_asked c + count (asked_in cs)
    count_asked-cons (asked c) cs = refl
    count_asked-cons flushed cs = omega arith
    count_asked-cons (answered n now) cs = omega arith
    count_asked-cons (swept_dead now) cs = omega arith
    count_asked-cons (swept_old now) cs = omega arith
    count_asked-cons (beat k hash_rate updated_at) cs = omega arith
    count_asked-cons (ended now session_id) cs = omega arith
    count_asked-cons (bettered now session_id d) cs = omega arith

    call-counts :
        (c : Call) (s : Running)
        → count_answered (call c s).0 + count_waiting (call c s).1 ≡ count_waiting s + count_asked c
    unfolding call
    call-counts (asked c) s = omega (arith, count-append s.service.insert_queue (c ∷ []))
    call-counts flushed s = omega (arith, count_all-launch s.service.insert_queue s.in_flight)
    call-counts (answered n now) s =
        let batch = (pull n s.in_flight).0 in
        omega (
          arith,
          count_all-pull n s.in_flight,
          count_answered-results_of batch s.service.rows (insert_all f now batch s.service.rows),
        )
    call-counts (swept_dead now) s = omega arith
    call-counts (swept_old now) s = omega arith
    call-counts (beat k hash_rate updated_at) s = omega arith
    call-counts (ended now session_id) s = omega arith
    call-counts (bettered now session_id d) s = omega arith

    -- In any order of calls, of starts of flushes and of the database's answers, whether it inserts or
    -- refuses a batch: of the callers of `insert` that pass a test, those that are answered and those that
    -- still wait are together as many as those that waited before and those that have asked. So none
    -- is lost, and none is answered twice.
    pub calls-counts :
        (cs : List Call) (s : Running)
        → count_answered (calls cs s).0 + count_waiting (calls cs s).1
          ≡ count_waiting s + count (asked_in cs)
    unfolding calls
    calls-counts [] s = omega arith
    calls-counts (c ∷ cs) s =
        let (results, s') = call c s in
        let (later, s'') = calls cs s' in
        omega (
          arith,
          count_answered-append results later,
          call-counts c s,
          calls-counts cs s',
          count_asked-cons c cs,
        )
