-- ===== src/Lobby/Handlers.antt =====
-- The handlers of src/lobby.c for the packets of a client at a table, and the ones that the machine and
-- the event loop call. The answers that they send are left out but for the flag `is_ok`.
pub mod Refusal
use pokerunicorn_server.Prelude.{
  ℕ, Bool, true, false, ◌&&◌, Option, none, some, List, [], ◌∷◌, ◌++◌, if◌then◌else◌, ◌==◌, find,
  ltb, is_at,
}
use pokerunicorn_server.Prelude.Result.{Result, ok, fault, null_pointer, ◌>>=◌}
use pokerunicorn_server.Card.Draw.{Draw}
use pokerunicorn_server.Poker.Types.{ActionKind, Action, Poker, Player}
use pokerunicorn_server.Poker.Players.{getby_id, getby_position}
use pokerunicorn_server.Poker.Round.{start, Started}
use pokerunicorn_server.Poker.Action.{do_action, Outcome}
use pokerunicorn_server.Account.{Account, fetch}
use pokerunicorn_server.Account.Db.{Database}
use pokerunicorn_server.Lobby.Types.{
  Session, ClientSession, LobbyClient, Work, TaskCall, World, client_session_getby_table_id,
}
use pokerunicorn_server.Lobby.Seats.{join_session, unjoin_session, leave_session}

-- `pkrsrv_server_packet_join_t`
pub record Join : Type 0 where
  pub enterance_amount : ℕ
  pub position : ℕ

-- `pkrsrv_server_packet_poker_action_t`, without its table.
pub record PokerAction : Type 0 where
  pub action_kind : ActionKind
  pub amount : ℕ

module _ {D : Type 0} (ops : Database D) where
  -- `on_client_join` where the lobby has the session of the packet's table (`exists`) or does not. The
  -- second part is the flag of the answer.
  unfoldable pub on_client_join : ℕ → ℕ → Bool → World D → Join → Result (World D × Bool)
  unfolding fetch join_session
  on_client_join now addr exists w join = elim w.client.account [
    | none ↦ ok (w, false)
    | some account ↦ fetch ops w.db account >>= λ a.
        let fetched : World D = record w { client = record (w.client) { account = some a } } in
        if ltb a.balance join.enterance_amount
        then ok (fetched, false)
        else if exists
        then join_session ops now addr fetched join.enterance_amount join.position
        else ok (fetched, false)
  ]

  -- `on_client_unjoin` for the session of the packet's table, which the code takes to be one that the
  -- client watches.
  unfoldable pub on_client_unjoin : World D → Result (World D × Bool)
  unfolding unjoin_session
  on_client_unjoin w = elim (client_session_getby_table_id w.client w.session.table) [
    | none ↦ fault null_pointer
    | some to_unjoin ↦ unjoin_session ops w
  ]

  -- `on_client_leave` for the session of the packet's table: `none` where nothing is answered.
  unfoldable pub on_client_leave : World D → Result (World D × Option Bool)
  unfolding leave_session
  on_client_leave w = elim (client_session_getby_table_id w.client w.session.table) [
    | none ↦ ok (w, none)
    | some to_leave ↦ leave_session ops w to_leave >>= λ x. ok (x.0, some true)
  ]

-- `on_client_action`: the action is done for the player of the client's account; `none` where there is
-- none.
unfoldable pub on_client_action :
    ℕ → List Draw → LobbyClient → Session → PokerAction → Result (Option Outcome)
unfolding do_action
on_client_action now draws client session action =
    elim (client_session_getby_table_id client session.table) [
      | none ↦ ok none
      | some playing_session ↦ elim client.account [
        | none ↦ fault null_pointer
        | some account ↦ elim (getby_id session.poker.players account.id) [
          | none ↦ ok none
          | some player ↦
              do_action now draws session.poker player.addr
                (record { account = account.id; kind = action.action_kind; amount = action.amount })
              >>= λ o. ok (some o)
        ]
      ]
    ]

-- The player at the position that is to act.
abbrev pub playing_player : Poker → Option Player
playing_player poker = find (λ p. is_at poker.playing_position p.position) poker.players

-- `on_poker_action` after an action of the account `account`: a player who has left folds where the
-- turn comes to it. `none` is the machine left alone.
unfoldable pub on_poker_action : ℕ → List Draw → Poker → ℕ → Result (Option Outcome)
unfolding do_action
on_poker_action now draws poker account = elim (playing_player poker) [
  | none ↦ fault null_pointer
  | some p ↦
      if p.is_left && p.is_playing
      then (do_action now draws poker p.addr
            (record { account = account; kind = ActionKind.fold; amount = 0 })
          >>= λ o. ok (some o))
      else ok none
]

-- `pkrsrv_lobby_session_poker_start__async`. Nothing is drawn from where the game does not start.
unfoldable pub poker_start_async :
    ℕ → List Draw → Session → Result (Session × Started × List TaskCall)
unfolding start
poker_start_async now draws session = start now draws session.poker >>= λ s. ok (
  record session { poker = s.poker; poker_start_task = false },
  s,
  TaskCall.leave Work.start ∷ [],
)
