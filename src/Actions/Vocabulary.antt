-- ===== src/Actions/Vocabulary.antt =====
-- src/nttd/constants.py: the words of the action vocabulary.
use nttd.Prelude.{String, List, [], ◌∷◌, ◌++◌}
use nttd.Prelude.Dict.{Dict}

abbrev pub action_categories : Dict String (List String)
action_categories =
    (
      "road",
      "connect_road" ∷ "build_road_depot" ∷ "build_road_stop" ∷ "remove_road" ∷ "remove_road_depot"
          ∷ "remove_road_stop" ∷ "build_one_way_road" ∷ "build_one_way_road_full"
          ∷ "convert_road_type" ∷ [],
    )
    ∷ (
      "rail",
      "connect_rail" ∷ "connect_depot" ∷ "build_rail_station" ∷ "build_rail_depot"
          ∷ "build_rail_signal" ∷ "build_rail_waypoint" ∷ "build_rail_track" ∷ "remove_rail"
          ∷ "remove_rail_track" ∷ "remove_signal" ∷ "remove_rail_station" ∷ "convert_rail" ∷ [],
    )
    ∷ (
      "marine",
      "build_path" ∷ "build_canal" ∷ "build_lock" ∷ "build_buoy" ∷ "build_water_depot"
          ∷ "remove_canal" ∷ "remove_lock" ∷ "remove_buoy" ∷ "remove_water_depot" ∷ [],
    )
    ∷ (
      "air_and_other",
      "build_airport" ∷ "remove_airport" ∷ "open_close_airport" ∷ "build_dock" ∷ "build_bridge"
          ∷ "build_tunnel" ∷ "demolish_tile" ∷ [],
    )
    ∷ ("company", "build_company_hq" ∷ "set_loan" ∷ "rename_company" ∷ [])
    ∷ ("town", "perform_town_action" ∷ [])
    ∷ ("sign", "build_sign" ∷ "remove_sign" ∷ [])
    ∷ ("group", "create_group" ∷ "delete_group" ∷ "move_to_group" ∷ "set_auto_replace" ∷ [])
    ∷ (
      "vehicle",
      "buy_vehicle" ∷ "build_train" ∷ "sell_vehicle" ∷ "sell_wagon" ∷ "move_wagon" ∷ "start_vehicle"
          ∷ "stop_vehicle" ∷ "send_to_depot" ∷ "send_to_depot_service" ∷ "clone_vehicle"
          ∷ "refit_vehicle" ∷ "reverse_vehicle" ∷ "rename_vehicle" ∷ [],
    )
    ∷ (
      "order",
      "add_order" ∷ "insert_order" ∷ "remove_order" ∷ "skip_to_order" ∷ "move_order"
          ∷ "set_order_flags" ∷ "share_orders" ∷ "copy_orders" ∷ "set_order_condition"
          ∷ "set_order_compare_function" ∷ "set_order_compare_value" ∷ "set_stop_location" ∷ [],
    )
    ∷ (
      "landscape",
      "raise_tile" ∷ "lower_tile" ∷ "level_tiles" ∷ "plant_tree" ∷ "plant_tree_rectangle" ∷ [],
    )
    ∷ ("planning", "estimate_cost" ∷ [])
    ∷ []

abbrev pub operator_action_categories : Dict String (List String)
operator_action_categories =
    (
      "town_deity",
      "found_town" ∷ "expand_town" ∷ "set_town_growth" ∷ "change_town_rating" ∷ "set_cargo_goal"
          ∷ [],
    )
    ∷ ("subsidy", "create_subsidy" ∷ [])
    ∷ ("finance", "change_bank_balance" ∷ "set_max_loan" ∷ [])
    ∷ ("settings", "set_game_setting" ∷ [])
    ∷ []

-- `{action for actions in categories.values() for action in actions}`
abbrev pub flatten : Dict String (List String) → List String
flatten [] = []
flatten ((_, actions) ∷ rest) = actions ++ flatten rest

abbrev pub known_actions : List String
known_actions = flatten action_categories

abbrev pub operator_actions : List String
operator_actions = flatten operator_action_categories

abbrev pub read_only_gs_actions : List String
read_only_gs_actions =
    "ping" ∷ "find_airport_spots" ∷ "find_bus_stop_spots" ∷ "find_depot_spots" ∷ "find_dock_spots"
    ∷ "find_flat_spots" ∷ "find_rail_depot_spot" ∷ "find_station_spot" ∷ "find_water_depot_spots"
    ∷ "get_airport_types" ∷ "get_bridge_types" ∷ "get_cargo_flows" ∷ "get_cargo_types"
    ∷ "get_cargo_income" ∷ "get_clients" ∷ "get_companies" ∷ "get_company_finance" ∷ "get_date"
    ∷ "get_engine_details" ∷ "get_engines" ∷ "get_expense_breakdown" ∷ "get_game_settings"
    ∷ "get_groups" ∷ "get_hangars" ∷ "get_industries" ∷ "get_industry_info"
    ∷ "get_infrastructure_costs" ∷ "get_map_size" ∷ "get_map_terrain" ∷ "get_orders"
    ∷ "get_rail_types" ∷ "get_road_types" ∷ "get_signs" ∷ "get_station_info" ∷ "get_stations"
    ∷ "get_subsidies" ∷ "get_tile_area" ∷ "get_tile_info" ∷ "get_town_info" ∷ "get_town_rating"
    ∷ "get_towns" ∷ "get_vehicle_info" ∷ "trace_route" ∷ "get_vehicles" ∷ "get_waypoints"
    ∷ "scan_town_area" ∷ []
