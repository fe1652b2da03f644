-- ===== src/Lobby/Repository.antt =====
-- internal/lobby/lobby_repository.go: the running lobbies by id, each method under the repository's
-- lock. The database is gorm's: `query` is what Find gave, `saved` whether Save succeeded. The
-- gauges of internal/metric/lobby.go are not part of the state.
use shig.Common.{
  delete, ltb, not, none, insert, if◌then◌else◌, true, some, text_key, uuid_key, false, length,
  lookup, Bool, Map, Option, Uuid, ℕ,
}
use shig.Lobby.Sequencer.{new_lobby, Entity, Lobby}
use shig.Sessions.Repository.{len}

abbrev pub Lobbies : Type 0 → Type 0
Lobbies C = Map Uuid (Lobby C)

module _ {C : Type 0} where
  -- The case of a lobby that does not run. newLobby is called with the saved entity.
  create_lobby : Option Entity → Bool → Uuid → Lobbies C → Lobbies C × Option (Lobby C)
  create_lobby none saved id r = (r, none)
  create_lobby (some e) saved id r =
      let l = new_lobby (record e { is_running = true }) in
      if saved then (insert id l r, some l) else (r, none)

  -- getOrCreateLobby
  unfoldable pub get_or_create_lobby :
      Option Entity → Bool → Uuid → Lobbies C → Lobbies C × Option (Lobby C)
  unfolding create_lobby
  get_or_create_lobby query saved id r = elim (lookup id r) [
    | none ↦ create_lobby query saved id r
    | some l ↦ (r, some l)
  ]

  unfoldable pub get_lobby : Uuid → Lobbies C → Option (Lobby C)
  get_lobby id r = lookup id r

  -- The entity is changed in memory before it is saved.
  unfoldable pub set_lobby_live : Bool → Uuid → Bool → Lobbies C → Lobbies C × Bool
  set_lobby_live saved id is_live r = elim (lookup id r) [
    | none ↦ (r, false)
    | some l ↦
        (insert id (record l { entity = record l.entity { is_live = is_live } }) r, not saved)
  ]

  abbrev pub not_running : Lobby C → Lobby C
  not_running l = record l { entity = record l.entity { is_running = false } }

  -- A lobby in use is not deleted; one that cannot be saved stays, no longer marked as running.
  unfoldable pub delete_lobby : Bool → Uuid → Lobbies C → Lobbies C × Bool
  delete_lobby saved id r = elim (lookup id r) [
    | none ↦ (r, false)
    | some l ↦
        if ltb 0 (len l.sessions)
        then (r, false)
        else if saved
        then (delete id r, true)
        else (insert id (not_running l) r, false)
  ]

  unfoldable pub len_lobbies : Lobbies C → ℕ
  len_lobbies = length
