-- ===== src/Session/Batch/Kept.antt =====
-- What a batch of src/nttd/runtime/orchestrator.py keeps of the game.
use nttd.Prelude.{
  ℕ, zero, suc, ap, String, string_eq, true, false, Option, none, some, List, [], ◌∷◌, Bool-cases,
  Option-cases, inl, inr, ltb,
}
use nttd.Prelude.Dict.{Dict}
use nttd.Prelude.Distinct.{contains}
use nttd.Prelude.Int.{ℤ, leb_ℤ}
use nttd.Json.{Payload}
use nttd.EndConditions.{start_clock}
use nttd.Actions.Vocabulary.{known_actions}
use nttd.Actions.Gate.{ActionStatus, rejected}
use nttd.Session.Footprint.{Area, Affected, affected_area}
use nttd.Session.Footprint
use nttd.Session.Refresh.{TileReply, after_reply, read_bands, read_tile_area, width_of}
use nttd.Session.Batch.{
  Game, Entry, Session, refresh_area, refresh_changed_tiles, company_named, execute_actions,
}
use nttd.Session.Batch.Sent.{act, act_all, sent, execute_all-ground}

module _ {W T : Type 0} (game : Game W T) (P : W → Type 0)
    (send_keeps : (action : String) (params : Payload) (w : W)
      → P w
      → P (game.send_gamescript action params w).0)
    (read_keeps : (a : Area) (w : W) → P w → P (game.get_tile_area a w).0) where
  after_reply_keeps :
      (w : W) (reply : TileReply T) (rest : W × Option (List T))
      → P w
      → P rest.0
      → P (after_reply w reply rest).0
  after_reply_keeps w TileReply.raised rest p q = p
  after_reply_keeps w (TileReply.answered false result) rest p q = p
  after_reply_keeps w (TileReply.answered true none) rest p q = p
  after_reply_keeps w (TileReply.answered true (some tiles)) rest p q = q

  read_bands_keeps :
      (fuel : ℕ) (a : Area) (start : ℤ) (w : W)
      → P w
      → P (read_bands game.get_tile_area fuel a start w).0
  unfolding read_bands
  read_bands_keeps zero a start w p = p
  read_bands_keeps (suc fuel) a start w p = elim (Bool-cases (leb_ℤ start a.y2)) [
    | inl more ↦ rw more (
        after_reply_keeps _ _ _ (read_keeps _ w p) (read_bands_keeps fuel a _ _ (read_keeps _ w p)))
    | inr done ↦ rw done p
  ]

  read_tile_area_keeps : (a : Area) (w : W) → P w → P (read_tile_area game.get_tile_area a w).0
  unfolding read_tile_area
  read_tile_area_keeps a w p = elim (Bool-cases (ltb 0 (width_of a))) [
    | inl wide ↦ rw wide (read_bands_keeps _ a _ w p)
    | inr narrow ↦ rw narrow p
  ]

  refresh_area_keeps :
      (affected : Affected) (w : W) (written : List (List T))
      → P w
      → P (refresh_area game affected w written).0
  refresh_area_keeps Footprint.type_error w written p = p
  refresh_area_keeps Footprint.nothing w written p = p
  refresh_area_keeps (Footprint.area a) w written p = read_tile_area_keeps a w p

  refresh_changed_tiles_keeps :
      (action : String) (params : Payload) (status : ActionStatus) (changed : Payload) (w : W)
      (deltas : Option (List (List T)))
      → P w
      → P (refresh_changed_tiles game action params status changed w deltas).0
  unfolding refresh_changed_tiles
  refresh_changed_tiles_keeps action params status changed w none p = p
  refresh_changed_tiles_keeps action params rejected changed w (some written) p = p
  refresh_changed_tiles_keeps action params status changed w (some written) p =
      refresh_area_keeps _ w written p

  module _ (codes categories : Dict ℤ String) where
    sent_keeps :
        (action : String) (params : Payload) (w : W) (deltas : Option (List (List T)))
        → P w
        → P (sent game codes categories action params (w, deltas)).0
    sent_keeps action params w deltas p =
        elim (Option-cases (game.send_gamescript action params w).1) [
          | inl raised ↦ rw (raised, sent) (send_keeps action params w p)
          | inr (answer, found) ↦
              rw (found, sent)
                (refresh_changed_tiles_keeps _ _ _ _ _ deltas (send_keeps action params w p))
        ]

    act_keeps :
        (entry : Entry) (w : W) (deltas : Option (List (List T)))
        → P w
        → P (act game codes categories entry (w, deltas)).0
    act_keeps entry w deltas p = elim (Bool-cases (contains entry.action known_actions)) [
      | inr unknown ↦ rw unknown p
      | inl known ↦ elim (Bool-cases (game.connected w)) [
        | inr offline ↦ rw (known, offline) p
        | inl online ↦ rw (known, online) (sent_keeps entry.action entry.params w deltas p)
      ]
    ]

    act_all_keeps :
        (entries : List Entry) (w : W) (deltas : Option (List (List T)))
        → P w
        → P (act_all game codes categories entries (w, deltas)).0
    act_all_keeps [] w deltas p = p
    act_all_keeps (entry ∷ entries) w deltas p = elim (Option-cases (company_named game entry)) [
      | inl bad ↦ rw (bad, act_all) p
      | inr (company_id, named) ↦
          rw (named, act_all) (act_all_keeps entries _ _ (act_keeps entry w deltas p))
    ]

    pub execute_actions_keeps :
        (fresh : ℕ → String) (entries : List Entry) (s : Session W T)
        → P s.world
        → P (execute_actions game fresh codes categories entries s).0.world
    unfolding execute_actions
    execute_actions_keeps fresh entries s p =
        let started = record s {
          checker = (start_clock (game.now s.world) (game.game_date s.world) s.checker).0;
        } in
        rw (ap (λ g. g.0) (execute_all-ground game codes categories fresh entries started))
          (act_all_keeps entries s.world s.deltas p)
