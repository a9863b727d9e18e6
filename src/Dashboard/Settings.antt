-- ===== src/Dashboard/Settings.antt =====
-- The rest of src/ORM/address-settings, and what a miner's page shows
-- (`getClientInfo` of src/controllers/client/client.controller.ts). Times are milliseconds.
use elektron_net_ppool.Common.{
  take, ℕ, ◌≡◌, ◌≢◌, refl, pos, String, str_eq, str_eq_refl, Bool, true, false, Bool-cases, inl,
  inr, Option, none, some, List, [], ◌∷◌, ◌++◌, map, filter, length, if◌then◌else◌, arith,
}
use elektron_net_ppool.Common.Float.{Float64}

module _ (f : Float64) where
  -- AddressSettingsEntity
  pub record AddressSettings : Type 0 where
    pub address : String
    pub shares : f.F
    pub best_difficulty : f.F
    pub best_difficulty_user_agent : Option String
    pub updated_at : ℕ

  abbrev pub find : String → List AddressSettings → Option AddressSettings
  find a [] = none
  find a (r ∷ rows) = let rest = find a rows in if str_eq r.address a then some r else rest

  abbrev pub fresh : (now : ℕ) → String → AddressSettings
  fresh now a = record {
    address = a;
    shares = f.of_int (pos 0);
    best_difficulty = f.of_int (pos 0);
    best_difficulty_user_agent = none;
    updated_at = now;
  }

  -- `createNew`, by whether a row of the key came in between; then the `catch` fetches that one.
  abbrev pub create_new :
      (now : ℕ)
      → String
      → Option AddressSettings
      → List AddressSettings
      → Option AddressSettings × List AddressSettings
  create_new now a none rows = (some (fresh now a), rows ++ fresh now a ∷ [])
  create_new now a (some r) rows = (find a rows, rows)

  abbrev pub or_create :
      (now : ℕ)
      → String
      → (create_if_not_found : Bool) → Option AddressSettings
      → List AddressSettings
      → Option AddressSettings × List AddressSettings
  or_create now a create (some r) rows' = (some r, rows')
  or_create now a true none rows' = create_new now a (find a rows') rows'
  or_create now a false none rows' = (none, rows')

  -- `rows` is the table at the first query, `rows'` when the row would be inserted.
  unfoldable pub get_settings :
      (now : ℕ)
      → String
      → (create_if_not_found : Bool) → (rows rows' : List AddressSettings)
      → Option AddressSettings × List AddressSettings
  get_settings now a create rows rows' = or_create now a create (find a rows) rows'

  unfoldable pub add_shares : (now : ℕ) → String → f.F → List AddressSettings → List AddressSettings
  add_shares now a shares = map (λ r.
      if str_eq r.address a
      then record r { shares = f.add r.shares shares; updated_at = now }
      else r)

  unfoldable pub update_best_difficulty :
      (now : ℕ) → String → f.F → Option String → List AddressSettings → List AddressSettings
  update_best_difficulty now a d agent = map (λ r.
      if str_eq r.address a
      then record r { best_difficulty = d; best_difficulty_user_agent = agent; updated_at = now }
      else r)

  abbrev pub insert_best : AddressSettings → List AddressSettings → List AddressSettings
  insert_best r [] = r ∷ []
  insert_best r (s ∷ rows) =
      let rest = insert_best r rows in
      if f.lt r.best_difficulty s.best_difficulty then s ∷ rest else r ∷ s ∷ rows

  abbrev pub best_first : List AddressSettings → List AddressSettings
  best_first [] = []
  best_first (r ∷ rows) = insert_best r (best_first rows)

  -- `WHERE bestDifficulty > 0 ORDER BY bestDifficulty DESC LIMIT 10`
  unfoldable pub get_high_scores : List AddressSettings → List AddressSettings
  get_high_scores rows =
      take 10 (best_first (filter (λ r. f.lt (f.of_int (pos 0)) r.best_difficulty) rows))

  -- How many rows an address has.
  abbrev pub rows_of : String → List AddressSettings → ℕ
  rows_of a rows = length (filter (λ r. str_eq r.address a) rows)

  find-fresh :
      (now : ℕ) (a : String) (rows : List AddressSettings)
      → find a rows ≡ none
      → find a (rows ++ fresh now a ∷ []) ≡ some (fresh now a)
  find-fresh now a [] h = rw (str_eq_refl a) refl
  find-fresh now a (r ∷ rows) h = elim (Bool-cases (str_eq r.address a)) [
    | inl e ↦ absurd (ground (arith, rw e at h))
    | inr e ↦ rw e (find-fresh now a rows (rw e at h))
  ]

  create_new-find :
      (now : ℕ) (a : String) (rows : List AddressSettings) (o : Option AddressSettings)
      → find a rows ≡ o
      → let (answer, after) = create_new now a o rows in (answer ≡ find a after) × (answer ≢ none)
  create_new-find now a rows none e =
      (rw (find-fresh now a rows e) refl, λ k. absurd (ground (arith, k)))
  create_new-find now a rows (some r) e = (refl, λ k. absurd (ground (arith, k, e)))

  -- Asked to create what is missing, the service answers the row that the table then has for the address, also where
  -- another task has inserted it since the first query and the insertion fails.
  pub get_settings-creates :
      (now : ℕ) (a : String) (rows rows' : List AddressSettings)
      → find a rows ≡ none
      → let (answer, after) = get_settings now a true rows rows' in
        (answer ≡ find a after) × (answer ≢ none)
  unfolding get_settings
  get_settings-creates now a rows rows' h = rw h (create_new-find now a rows' (find a rows') refl)
