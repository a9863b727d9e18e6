-- ===== src/Clients.antt =====
-- The table of the connected clients and the queue of its inserts (src/ORM/client/client.service.ts).
-- Times are milliseconds; the database keeps whole seconds of them. A row that is deleted softly stays
-- in the table and its key stays taken.
pub mod Answers
use elektron_net_ppool.Common.{
  ℕ, pos, ◌+◌, ◌-◌, ◌*◌, ◌/◌, String, str_eq, Bool, true, false, ◌&&◌, ◌||◌, not, Option, none,
  some, List, [], ◌∷◌, ◌++◌, map, filter, length, ltb, leb, if◌then◌else◌,
}
use elektron_net_ppool.Common.Float.{Float64}
use elektron_net_ppool.Statistics.{Owner, owner_eq}

abbrev pub seconds : ℕ → ℕ
seconds t = t / 1000

module _ (f : Float64) where
  -- ClientEntity, with its columns of time.
  pub record ClientRow : Type 0 where
    pub key : Owner
    pub user_agent : Option String
    pub best_difficulty : f.F
    pub hash_rate : f.F
    pub updated_at : ℕ
    pub deleted_at : Option ℕ

  -- `partialClient`, of what the session gives.
  pub record PartialClient : Type 0 where
    pub key : Owner
    pub user_agent : Option String
    pub best_difficulty : f.F

  -- The queue and the table.
  pub record ClientService : Type 0 where
    pub insert_queue : List PartialClient
    pub rows : List ClientRow

  unfoldable pub insert : PartialClient → ClientService → ClientService
  insert c s = record s { insert_queue = s.insert_queue ++ c ∷ [] }

  abbrev pub is_taken : Owner → List ClientRow → Bool
  is_taken k [] = false
  is_taken k (r ∷ rows) = owner_eq k r.key || is_taken k rows

  abbrev pub row_of : (now : ℕ) → PartialClient → ClientRow
  row_of now c = record {
    key = c.key;
    user_agent = c.user_agent;
    best_difficulty = c.best_difficulty;
    hash_rate = f.of_int (pos 0);
    updated_at = seconds now;
    deleted_at = none;
  }

  -- One statement inserts all rows, or none if a key is taken.
  abbrev pub insert_all : (now : ℕ) → List PartialClient → List ClientRow → Option (List ClientRow)
  insert_all now [] rows = some rows
  insert_all now (c ∷ cs) rows =
      let rest = insert_all now cs (row_of now c ∷ rows) in
      if is_taken c.key rows then none else rest

  -- What the callers of `insert` get: their row, or the error.
  pub data Result : Type 0 where
    inserted failed : PartialClient → Result

  -- `insertClients` up to the insert that it waits for: the batch that goes to the database.
  unfoldable pub insert_clients : ClientService → List PartialClient × ClientService
  insert_clients s = (s.insert_queue, record s { insert_queue = [] })

  abbrev pub results_of :
      List PartialClient → List ClientRow → Option (List ClientRow) → List Result × List ClientRow
  results_of batch rows none = (map failed batch, rows)
  results_of batch rows (some rows') = (map inserted batch, rows')

  -- The rest of `insertClients`, when the database has answered.
  unfoldable pub finish_insert :
      (now : ℕ) → List PartialClient → ClientService → List Result × ClientService
  finish_insert now batch s =
      let (results, rows) = results_of batch s.rows (insert_all now batch s.rows) in
      (results, record s { rows = rows })

  abbrev pub update_where :
      (ClientRow → Bool) → (ClientRow → ClientRow) → List ClientRow → List ClientRow
  update_where p g rows = map (λ r. if p r then g r else r) rows

  abbrev pub is_live : ClientRow → Bool
  is_live r = elim r.deleted_at [ none ↦ true | some t ↦ false ]

  -- An update sets `updatedAt` too.
  abbrev delete_softly : (now : ℕ) → ClientRow → ClientRow
  delete_softly now r = record r { deleted_at = some (seconds now); updated_at = seconds now }

  unfoldable pub kill_dead_clients : (now : ℕ) → List ClientRow → List ClientRow
  kill_dead_clients now rows =
      update_where (λ r. is_live r && ltb r.updated_at (seconds (now - 5 * 60 * 1000)))
        (delete_softly now) rows

  unfoldable pub client_heartbeat :
      Owner → (hash_rate : f.F) → (updated_at : ℕ) → List ClientRow → List ClientRow
  unfolding owner_eq
  client_heartbeat k hash_rate updated_at rows =
      update_where (λ r. owner_eq k r.key)
        (λ r. record r {
          hash_rate = hash_rate;
          deleted_at = none;
          updated_at = seconds updated_at;
        })
        rows

  abbrev has_session : String → ClientRow → Bool
  has_session session_id r = str_eq r.key.session_id session_id

  -- `softDelete({ sessionId })`
  unfoldable pub delete_session : (now : ℕ) → String → List ClientRow → List ClientRow
  delete_session now session_id rows =
      update_where (has_session session_id) (delete_softly now) rows

  abbrev is_old : ℕ → ClientRow → Bool
  is_old cutoff r = elim r.deleted_at [ none ↦ false | some t ↦ leb t (seconds cutoff) ]

  unfoldable pub delete_old_clients : (now : ℕ) → List ClientRow → List ClientRow
  delete_old_clients now rows = filter (λ r. not (is_old (now - 24 * 60 * 60 * 1000) r)) rows

  unfoldable pub update_client_difficulty_if_higher :
      (now : ℕ) → String → f.F → List ClientRow → List ClientRow
  update_client_difficulty_if_higher now session_id d rows =
      update_where (λ r. has_session session_id r && f.lt r.best_difficulty d)
        (λ r. record r { best_difficulty = d; updated_at = seconds now }) rows

  unfoldable pub connected_client_count : List ClientRow → ℕ
  connected_client_count rows = length (filter is_live rows)

  unfoldable pub get_by_session_id : Owner → List ClientRow → Option ClientRow
  unfolding owner_eq
  get_by_session_id k [] = none
  get_by_session_id k (r ∷ rows) =
      let rest = get_by_session_id k rows in if owner_eq k r.key && is_live r then some r else rest
