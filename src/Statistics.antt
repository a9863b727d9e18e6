-- ===== src/Statistics.antt =====
-- A session's slots of shares (src/models/StratumV1ClientStatistics.ts) and the rows that they are saved in
-- (src/ORM/client-statistics/client-statistics.service.ts). Times are milliseconds; a call reads the
-- clock once before it waits for the database and once after.
pub mod Difficulty
pub mod Bits
pub mod Power
pub mod Rows
pub mod Counts
pub mod Overlaps
pub mod Suggestion
pub mod Queries
pub mod Charts
pub mod Totals
use elektron_net_ppool.Common.{
  filter, ℕ, zero, suc, ◌+◌, ◌-◌, ◌*◌, ◌/◌, ◌%◌, ◌^◌, ℤ, pos, negsuc, ◌-ℤ◌, String, str_eq, Bool,
  true, false, ◌&&◌, not, Option, none, some, List, [], ◌∷◌, ◌++◌, map, length, ltb, ◌==◌,
  if◌then◌else◌,
}
use elektron_net_ppool.Common.Float.{Float64}

-- The columns that tell a session's rows.
pub record Owner : Type 0 where
  pub address : String
  pub client_name : String
  pub session_id : String

unfoldable pub owner_eq : Owner → Owner → Bool
owner_eq a b =
    str_eq a.address b.address
    && str_eq a.client_name b.client_name
    && str_eq a.session_id b.session_id

abbrev pub cache_size : ℕ
cache_size = 30

-- `1000 * 60 * 10`
abbrev pub coeff : ℕ
coeff = 600_000

module _ (f : Float64) where
  -- An entry of `submissionCache`.
  pub record Entry : Type 0 where
    pub time : ℕ
    pub difficulty : f.F

  -- ClientStatisticsEntity
  pub record Row : Type 0 where
    pub time : ℕ
    pub shares : f.F
    pub accepted_count : ℕ
    pub owner : Owner

  pub record Statistics : Type 0 where
    pub shares : f.F
    pub accepted_count : ℕ
    pub submission_cache_start : ℕ
    pub submission_cache : List Entry
    pub current_time_slot : Option ℕ
    pub last_save : ℕ
    pub hash_rate : f.F
    pub previous_time_slot_time : ℕ
    pub current_time_slot_time : ℕ
    pub previous_shares : f.F

  -- The constructor.
  unfoldable pub new_statistics : (now : ℕ) → Statistics
  new_statistics now = record {
    shares = f.of_int (pos 0);
    accepted_count = 0;
    submission_cache_start = now;
    submission_cache = [];
    current_time_slot = none;
    last_save = 0;
    hash_rate = f.of_int (pos 0);
    previous_time_slot_time = 0;
    current_time_slot_time = 0;
    previous_shares = f.of_int (pos 0);
  }

  abbrev pub is_row_of : Row → Row → Bool
  is_row_of r r' = owner_eq r.owner r'.owner && (r'.time == r.time)

  -- The service's `insert`; the newest row is first.
  unfoldable pub insert : Row → List Row → List Row
  insert r rows = r ∷ rows

  abbrev pub update_one : Row → Row → Row
  update_one r r' =
      if is_row_of r r'
      then record r' { shares = r.shares; accepted_count = r.accepted_count }
      else r'

  -- The service's `update`.
  unfoldable pub update : Row → List Row → List Row
  update r rows = map (update_one r) rows

  -- The service's `deleteOldStatistics`, of a clock that is past its first day.
  unfoldable pub delete_old_statistics : (now : ℕ) → List Row → List Row
  delete_old_statistics now rows = filter (λ r. not (ltb r.time (now - 24 * 60 * 60 * 1000))) rows

  -- The row that `insert` and `update` are given.
  abbrev pub row_of : Owner → ℕ → Statistics → Row
  row_of owner slot s = record {
    time = slot;
    shares = s.shares;
    accepted_count = s.accepted_count;
    owner = owner;
  }

  abbrev shift : List Entry → List Entry
  shift [] = []
  shift (e ∷ cache) = cache

  -- `if (length > CACHE_SIZE) shift(); push(...)`
  unfoldable pub remember : Entry → List Entry → List Entry
  remember e cache = (if ltb cache_size (length cache) then shift cache else cache) ++ e ∷ []

  abbrev pub count : f.F → Statistics → Statistics
  count difficulty s = record s {
    shares = f.add s.shares difficulty;
    accepted_count = s.accepted_count + 1;
  }

  -- `((previousShares + shares) * 4294967296) / (time / 1000)`, if there are shares
  abbrev pub with_hash_rate : (now : ℕ) → Statistics → Statistics
  with_hash_rate now s =
      if f.lt (f.of_int (pos 0)) s.shares
      then record s {
        hash_rate =
            f.div (f.mul (f.add s.previous_shares s.shares) (f.of_int (pos (2 ^ 32))))
              (f.div (f.of_int (pos now -ℤ pos s.previous_time_slot_time)) (f.of_int (pos 1000)));
      }
      else s

  -- Where a call of `addShares` waits for the table: nowhere, for the save that it ends with, or for the
  -- last save of the slot before the one that it enters.
  pub data Await : Type 0 where
    done saving : Await
    entering : (slot : ℕ) → f.F → Await

  -- What a call has done when it waits.
  abbrev pub Progress : Type 0
  Progress = Await × (Statistics × List Row)

  unfoldable pub first_record : Owner → (now slot : ℕ) → f.F → Statistics → List Row → Progress
  unfolding insert
  first_record owner now slot difficulty s rows =
      let s' = count difficulty (record s {
        previous_time_slot_time = now;
        current_time_slot_time = now;
        current_time_slot = some slot;
      }) in
      (saving, (s', insert (row_of owner slot s') rows))

  -- The former slot is saved first.
  unfoldable pub next_slot : Owner → (old slot : ℕ) → f.F → Statistics → List Row → Progress
  unfolding update
  next_slot owner old slot difficulty s rows =
      (entering slot difficulty, (s, update (row_of owner old s) rows))

  -- When that is done, with what the fields hold by then.
  unfoldable pub enter_slot : Owner → (now slot : ℕ) → f.F → Statistics → List Row → Progress
  unfolding insert
  enter_slot owner now slot difficulty s rows =
      let s' = record s {
        previous_shares = s.shares;
        previous_time_slot_time = s.current_time_slot_time;
        current_time_slot_time = now;
        current_time_slot = some slot;
        shares = difficulty;
        accepted_count = 1;
      } in
      (saving, (s', insert (row_of owner slot s') rows))

  unfoldable pub same_slot : Owner → (now slot : ℕ) → f.F → Statistics → List Row → Progress
  unfolding update
  same_slot owner now slot difficulty s rows =
      let s' = count difficulty s in
      if ltb (s.last_save + 60_000) now
      then (saving, (s', update (row_of owner slot s') rows))
      else (done, (with_hash_rate now s', rows))

  unfoldable pub add_in_slot :
      Owner → (now slot : ℕ) → f.F → Option ℕ → Statistics → List Row → Progress
  unfolding first_record next_slot same_slot
  add_in_slot owner now slot difficulty none s rows = first_record owner now slot difficulty s rows
  add_in_slot owner now slot difficulty (some old) s rows =
      if old == slot
      then same_slot owner now slot difficulty s rows
      else next_slot owner old slot difficulty s rows

  -- A call up to the first save that it waits for.
  unfoldable pub add_shares : Owner → (now : ℕ) → f.F → Statistics → List Row → Progress
  unfolding remember add_in_slot
  add_shares owner now difficulty s rows =
      add_in_slot owner now (now / coeff * coeff) difficulty s.current_time_slot
        (record s {
          submission_cache =
              remember (record { time = now; difficulty = difficulty }) s.submission_cache;
        })
        rows

  -- The call goes on, up to the next save that it waits for; other calls may have come in between.
  unfoldable pub resume : Owner → (now : ℕ) → Await → Statistics → List Row → Progress
  unfolding enter_slot
  resume owner now done s rows = (done, (s, rows))
  resume owner now saving s rows = (done, (record s { last_save = now }, rows))
  resume owner now (entering slot difficulty) s rows = enter_slot owner now slot difficulty s rows

  -- A call that no other one interrupts.
  unfoldable pub uninterrupted : Owner → (now saved_at : ℕ) → Progress → Statistics × List Row
  unfolding resume
  uninterrupted owner now saved_at (done, (s, rows)) = (s, rows)
  uninterrupted owner now saved_at (saving, (s, rows)) = (resume owner saved_at saving s rows).1
  uninterrupted owner now saved_at (entering slot difficulty, (s, rows)) =
      let (w, (s', rows')) = resume owner now (entering slot difficulty) s rows in
      (resume owner saved_at w s' rows').1
