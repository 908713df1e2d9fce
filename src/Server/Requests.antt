-- ===== src/Server/Requests.antt =====
-- Requests of a client of src/server.c: their bytes and the tasks that they are meant to become.
use pokerunicorn_server.Prelude.{ℕ, ◌^◌, ◌≤◌, ◌<◌, List, [], ◌∷◌, ◌++◌, length}
use pokerunicorn_server.Server.{Task, bytes_le}
use pokerunicorn_server.Server.Opcode
use pokerunicorn_server.Server.Handlers.{header_frame}

-- The requests with a handler in its place, all but those of JSON.
pub data Request : Type 0 where
  meow ping get_account : Request
  login : List ℕ → List ℕ → Request
  signup : List ℕ → List ℕ → List ℕ → List ℕ → Request
  auth_session : List ℕ → Request
  enter leave : ℕ → Request
  join action : ℕ → ℕ → ℕ → Request
  get_tables get_sessions : ℕ → ℕ → Request
  update_account : List ℕ → List ℕ → Request

abbrev pub opcode_of : Request → ℕ
opcode_of Request.meow = Opcode.meow
opcode_of Request.ping = Opcode.ping
opcode_of Request.get_account = Opcode.get_account
opcode_of (Request.login id_token password) = Opcode.login
opcode_of (Request.signup id_token password name avatar) = Opcode.signup
opcode_of (Request.auth_session token) = Opcode.auth_session
opcode_of (Request.enter table) = Opcode.enter
opcode_of (Request.leave table) = Opcode.leave
opcode_of (Request.join table amount position) = Opcode.join
opcode_of (Request.action table kind amount) = Opcode.poker_action
opcode_of (Request.get_tables offset n) = Opcode.get_tables
opcode_of (Request.get_sessions offset n) = Opcode.get_sessions
opcode_of (Request.update_account name avatar) = Opcode.update_account

-- The bytes behind the header.
abbrev pub body_of : Request → List ℕ
body_of Request.meow = []
body_of Request.ping = []
body_of Request.get_account = []
body_of (Request.login id_token password) =
    (bytes_le 2 (length id_token) ++ bytes_le 2 (length password)) ++ (id_token ++ password)
body_of (Request.signup id_token password name avatar) =
    (bytes_le 2 (length id_token)
      ++ bytes_le 2 (length password)
      ++ bytes_le 2 (length name)
      ++ bytes_le 4 (length avatar))
    ++ (id_token ++ (password ++ (name ++ avatar)))
body_of (Request.auth_session token) = bytes_le 2 (length token) ++ token
body_of (Request.enter table) = bytes_le 8 table
body_of (Request.leave table) = bytes_le 8 table
body_of (Request.join table amount position) =
    bytes_le 8 table ++ bytes_le 1 position ++ bytes_le 8 amount
body_of (Request.action table kind amount) =
    bytes_le 8 table ++ bytes_le 2 kind ++ bytes_le 8 amount
body_of (Request.get_tables offset n) = bytes_le 2 offset ++ bytes_le 2 n
body_of (Request.get_sessions offset n) = bytes_le 2 offset ++ bytes_le 2 n
body_of (Request.update_account name avatar) =
    (bytes_le 2 (length name) ++ bytes_le 4 (length avatar)) ++ (name ++ avatar)

-- The task of a request; a ping has none.
abbrev pub task_of : Request → List Task
task_of Request.meow = Task.meowed ∷ []
task_of Request.ping = []
task_of Request.get_account = Task.get_account ∷ []
task_of (Request.login id_token password) = Task.login id_token password ∷ []
task_of (Request.signup id_token password name avatar) =
    Task.signup id_token password name avatar ∷ []
task_of (Request.auth_session token) = Task.auth_session token ∷ []
task_of (Request.enter table) = Task.enter table ∷ []
task_of (Request.leave table) = Task.leave table ∷ []
task_of (Request.join table amount position) = Task.join table amount position ∷ []
task_of (Request.action table kind amount) = Task.action table kind amount ∷ []
task_of (Request.get_tables offset n) = Task.get_tables offset n ∷ []
task_of (Request.get_sessions offset n) = Task.get_sessions offset n ∷ []
task_of (Request.update_account name avatar) = Task.update_account name avatar ∷ []

-- Numbers and lengths that fit their members, and avatars that `SSL_read` can be asked for at once. A token is not empty.
abbrev pub IsSized : Request → Type 0
IsSized Request.meow = Unit {0}
IsSized Request.ping = Unit {0}
IsSized Request.get_account = Unit {0}
IsSized (Request.login id_token password) = (length id_token < 65536) × (length password < 65536)
IsSized (Request.signup id_token password name avatar) =
    (length id_token < 65536)
    × (length password < 65536)
    × (length name < 65536)
    × (length avatar < 2 ^ 31)
IsSized (Request.auth_session token) = (1 ≤ length token) × (length token < 65536)
IsSized (Request.enter table) = table < 2 ^ 64
IsSized (Request.leave table) = table < 2 ^ 64
IsSized (Request.join table amount position) =
    (table < 2 ^ 64) × (amount < 2 ^ 64) × (position < 256)
IsSized (Request.action table kind amount) = (table < 2 ^ 64) × (kind < 65536) × (amount < 2 ^ 64)
IsSized (Request.get_tables offset n) = (offset < 65536) × (n < 65536)
IsSized (Request.get_sessions offset n) = (offset < 65536) × (n < 65536)
IsSized (Request.update_account name avatar) = (length name < 65536) × (length avatar < 2 ^ 31)

-- A request whose header says any length, which the handlers do not read.
abbrev pub bytes_of : Request × ℕ → List ℕ
bytes_of (request, n) = header_frame (opcode_of request) n ++ body_of request

abbrev pub bytes_of_all : List (Request × ℕ) → List ℕ
bytes_of_all [] = []
bytes_of_all (sent ∷ rest) = bytes_of sent ++ bytes_of_all rest

abbrev pub tasks_of_all : List (Request × ℕ) → List Task
tasks_of_all [] = []
tasks_of_all ((request, n) ∷ rest) = task_of request ++ tasks_of_all rest
