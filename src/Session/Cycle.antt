-- ===== src/Session/Cycle.antt =====
-- `_refresh_world_from_gs` of src/nttd/runtime/orchestrator.py: which tables are asked for, in which order,
-- and that an exception ends the refresh. W is the game and the world model, A the replies' results; what
-- the world makes of a result is an interface here, which src/nttd/state/world.py fills.
use nttd.Prelude.{
  ℕ, suc, ◌%◌, Bool, true, false, List, [], ◌∷◌, ◌==◌, nat_eq, if◌then◌else◌, Bool-cases, inl, inr,
}

pub data Query : Type 0 where
  get_towns : Query
  get_industries : Query
  get_companies : Query
  get_company_finance : ℕ → Query
  get_stations : ℕ → Query
  get_vehicles : ℕ → Query
  get_infrastructure_costs : ℕ → Query
  get_cargo_flows : ℕ → Query
  get_subsidies : Query

-- A reply without success, or whose result is of another type, is of no use.
pub data Answer (A : Type 0) : Type 0 where
  raised : Answer A
  unusable : Answer A
  usable : A → Answer A

pub record Tables (W A : Type 0) : Type 0 where
  pub ask : Query → W → W × Answer A
  -- `apply_gs_…`; false is an exception.
  pub apply : Query → A → W → W × Bool
  pub companies : W → List ℕ
  pub is_active : ℕ → W → Bool

abbrev stagger_interval : ℕ
stagger_interval = 5

-- What follows, unless an exception was raised.
abbrev pub and_then : {W : Type 0} → W × Bool → (W → W × Bool) → W × Bool
and_then (w, true) next = next w
and_then (w, false) next = (w, false)

abbrev pub slow_tables : ℕ → List Query
slow_tables cycle = if cycle % stagger_interval == 1 then get_towns ∷ get_industries ∷ [] else []

abbrev pub company_tables : ℕ → List Query
company_tables c =
    get_company_finance c ∷ get_stations c ∷ get_vehicles c ∷ get_infrastructure_costs c ∷ []

abbrev pub flow_tables : ℕ → ℕ → List Query
flow_tables cycle c = if cycle % stagger_interval == 0 then get_cargo_flows c ∷ [] else []

module _ {W A : Type 0} (tables : Tables W A) where
  abbrev taken : Query → W × Answer A → W × Bool
  taken q (w, raised) = (w, false)
  taken q (w, unusable) = (w, true)
  taken q (w, usable a) = tables.apply q a w

  unfoldable pub query : Query → W → W × Bool
  query q w = taken q (tables.ask q w)

  unfoldable pub queries : List Query → W → W × Bool
  queries [] w = (w, true)
  queries (q ∷ qs) w = and_then (query q w) (queries qs)

  -- One round over the companies that are active when their turn comes.
  unfoldable pub for_active : (ℕ → List Query) → List ℕ → W → W × Bool
  for_active asked [] w = (w, true)
  for_active asked (c ∷ cs) w =
      and_then (if tables.is_active c w then queries (asked c) w else (w, true))
        (for_active asked cs)

  abbrev flow_round : ℕ → W → W × Bool
  flow_round cycle w =
      and_then (for_active (flow_tables cycle) (tables.companies w) w)
        (queries (get_subsidies ∷ []))

  abbrev company_round : ℕ → W → W × Bool
  company_round cycle w =
      and_then (for_active company_tables (tables.companies w) w) (flow_round cycle)

  abbrev roster_round : ℕ → W → W × Bool
  roster_round cycle w = and_then (queries (get_companies ∷ []) w) (company_round cycle)

  unfoldable pub rounds : ℕ → W → W × Bool
  rounds cycle w = and_then (queries (slow_tables cycle) w) (roster_round cycle)

  -- The number of the cycle and the world after it.
  unfoldable pub refresh_world_from_gs : Bool → ℕ → W → ℕ × W
  refresh_world_from_gs connected cycle w =
      if connected then (suc cycle, (rounds (suc cycle) w).0) else (cycle, w)

  -- What every call keeps, the refresh keeps.
  module _ (P : W → Type 0) (ask_keeps : (q : Query) (w : W) → P w → P (tables.ask q w).0)
      (apply_keeps : (q : Query) (a : A) (w : W) → P w → P (tables.apply q a w).0) where
    and_then_keeps :
        (now : W × Bool) (next : W → W × Bool)
        → P now.0
        → ((w : W) → P w → P (next w).0)
        → P (and_then now next).0
    and_then_keeps (w, true) next p keeps = keeps w p
    and_then_keeps (w, false) next p keeps = p

    taken_keeps : (q : Query) (reply : W × Answer A) → P reply.0 → P (taken q reply).0
    taken_keeps q (w, raised) p = p
    taken_keeps q (w, unusable) p = p
    taken_keeps q (w, usable a) p = apply_keeps q a w p

    query_keeps : (q : Query) (w : W) → P w → P (query q w).0
    unfolding query
    query_keeps q w p = taken_keeps q (tables.ask q w) (ask_keeps q w p)

    queries_keep : (qs : List Query) (w : W) → P w → P (queries qs w).0
    unfolding queries
    queries_keep [] w p = p
    queries_keep (q ∷ qs) w p =
        and_then_keeps (query q w) (queries qs) (query_keeps q w p) (queries_keep qs)

    for_active_keeps :
        (asked : ℕ → List Query) (cs : List ℕ) (w : W) → P w → P (for_active asked cs w).0
    unfolding for_active
    for_active_keeps asked [] w p = p
    for_active_keeps asked (c ∷ cs) w p =
        and_then_keeps (if tables.is_active c w then queries (asked c) w else (w, true))
          (for_active asked cs)
          (elim (Bool-cases (tables.is_active c w)) [
            | inl active ↦ rw active (queries_keep (asked c) w p)
            | inr bankrupt ↦ rw bankrupt p
          ])
          (for_active_keeps asked cs)

    flow_round_keeps : (cycle : ℕ) (w : W) → P w → P (flow_round cycle w).0
    flow_round_keeps cycle w p =
        and_then_keeps (for_active (flow_tables cycle) (tables.companies w) w)
          (queries (get_subsidies ∷ []))
          (for_active_keeps (flow_tables cycle) (tables.companies w) w p)
          (queries_keep (get_subsidies ∷ []))

    company_round_keeps : (cycle : ℕ) (w : W) → P w → P (company_round cycle w).0
    company_round_keeps cycle w p =
        and_then_keeps (for_active company_tables (tables.companies w) w) (flow_round cycle)
          (for_active_keeps company_tables (tables.companies w) w p) (flow_round_keeps cycle)

    roster_round_keeps : (cycle : ℕ) (w : W) → P w → P (roster_round cycle w).0
    roster_round_keeps cycle w p =
        and_then_keeps (queries (get_companies ∷ []) w) (company_round cycle)
          (queries_keep (get_companies ∷ []) w p) (company_round_keeps cycle)

    pub refresh_world_from_gs_keeps :
        (connected : Bool) (cycle : ℕ) (w : W) → P w → P (refresh_world_from_gs connected cycle w).1
    unfolding refresh_world_from_gs rounds
    refresh_world_from_gs_keeps false cycle w p = p
    refresh_world_from_gs_keeps true cycle w p =
        and_then_keeps (queries (slow_tables (suc cycle)) w) (roster_round (suc cycle))
          (queries_keep (slow_tables (suc cycle)) w p) (roster_round_keeps (suc cycle))
