-- ===== src/Server/Opcode.antt =====
-- The opcodes of include/server.h, `enum PKRSRV_SERVER_OPCODE`.
use pokerunicorn_server.Prelude.{ℕ}

abbrev pub nop : ℕ
nop = 0

abbrev pub meow : ℕ
meow = 1

abbrev pub ping : ℕ
ping = 2

abbrev pub pong : ℕ
pong = 3

abbrev pub login : ℕ
login = 4

abbrev pub login_res : ℕ
login_res = 5

abbrev pub signup : ℕ
signup = 6

abbrev pub signup_res : ℕ
signup_res = 7

abbrev pub auth_session : ℕ
auth_session = 8

abbrev pub auth_session_res : ℕ
auth_session_res = 9

abbrev pub get_account : ℕ
get_account = 10

abbrev pub account : ℕ
account = 11

abbrev pub enter : ℕ
enter = 12

abbrev pub enter_res : ℕ
enter_res = 13

abbrev pub leave : ℕ
leave = 14

abbrev pub leave_res : ℕ
leave_res = 15

abbrev pub join : ℕ
join = 16

abbrev pub join_res : ℕ
join_res = 17

abbrev pub unjoin : ℕ
unjoin = 18

abbrev pub unjoin_res : ℕ
unjoin_res = 19

abbrev pub poker_info : ℕ
poker_info = 20

abbrev pub poker_state : ℕ
poker_state = 21

abbrev pub poker_action : ℕ
poker_action = 22

abbrev pub poker_action_reflection : ℕ
poker_action_reflection = 23

abbrev pub poker_end : ℕ
poker_end = 24

abbrev pub poker_restarted : ℕ
poker_restarted = 25

abbrev pub json : ℕ
json = 26

abbrev pub unjoined : ℕ
unjoined = 27

abbrev pub get_tables : ℕ
get_tables = 28

abbrev pub tables : ℕ
tables = 29

abbrev pub get_sessions : ℕ
get_sessions = 30

abbrev pub sessions : ℕ
sessions = 31

abbrev pub update_account : ℕ
update_account = 32

abbrev pub update_account_res : ℕ
update_account_res = 33

abbrev pub server_info : ℕ
server_info = 34

abbrev pub over_capacity : ℕ
over_capacity = 35

abbrev pub end_of_opcodes : ℕ
end_of_opcodes = 36
