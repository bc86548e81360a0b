-- ===== src/Config/Scored.antt =====
-- Whether a run is scored: `resolve_scored` and `_locked_aware_get` of
-- src/nttd/config/scenario_config.py.
use nttd.Prelude.{
  String, Bool, true, false, not, Option, none, some, List, [], ◌∷◌, string_eq, if◌then◌else◌,
}
use nttd.Prelude.Dict.{Dict, lookup}
use nttd.Config.Tree.{Node, null, truth, is_null, get_or, Texts}
use nttd.Config.Profile.{BenchmarkProfile, Deviation, deviations}

abbrev pub or_else : Option Node → Node → Node
or_else none fallback = fallback
or_else (some required) fallback = required

-- A scored run that omits a locked setting takes the rules' value for it.
unfoldable pub locked_aware_get : Dict String Node → Node → Bool → String → Node → Node
locked_aware_get locked m scored key fallback =
    get_or (if scored then or_else (lookup key locked) fallback else fallback) (key ∷ []) m

abbrev pub is_empty : List Deviation → Bool
is_empty [] = true
is_empty (_ ∷ _) = false

unfoldable pub resolve_scored :
    Texts → BenchmarkProfile → Node → Node → String → Bool × List Deviation
resolve_scored texts profile raw m scenario_id =
    let found = deviations texts profile m scenario_id in
    let conforms = is_empty found in
    let declared = get_or null ("scored" ∷ []) raw in
    if is_null declared
    then (conforms, [])
    else if not (truth declared)
    then (false, [])
    else if not conforms
    then (false, found)
    else (conforms, [])
