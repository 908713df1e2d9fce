-- ===== src/Server/Packets/Lengths.antt =====
-- The lengths that src/server.c gives to the frames of its packets.
use pokerunicorn_server.Prelude.{
  ℕ, suc, ◌+◌, ◌*◌, ◌%◌, ◌^◌, ◌<◌, ◌≡◌, refl, ap, List, [], ◌∷◌, ◌++◌, length, length-append, arith,
  All,
}
use pokerunicorn_server.Poker.Types.{Player}
use pokerunicorn_server.Websocket.{take}
use pokerunicorn_server.Server.Packets.{
  AccountText, TableText, PokerText, Item, must, may, text16, text32, if_any, account_texts,
  signup_account_texts, account_length, poker_info_player, poker_state_player,
}
use pokerunicorn_server.Server.Packets.Senders.{
  musts, player_items, session_items, table_items, score_items,
}
use pokerunicorn_server.Server.Packets.Writes.{
  players_length, info_length, sessions_length, tables_length,
}

-- The bytes of a packet's writes.
abbrev pub join_all : List (List ℕ) → List ℕ
join_all [] = []
join_all (bs ∷ chunks) = bs ++ join_all chunks

abbrev pub bytes_of_items : List Item → List ℕ
bytes_of_items [] = []
bytes_of_items (must bs ∷ items) = bs ++ bytes_of_items items
bytes_of_items (may chunks ∷ items) = join_all chunks ++ bytes_of_items items

unfoldable pub size_all : List (List ℕ) → ℕ
size_all [] = 0
size_all (bs ∷ chunks) = length bs + size_all chunks

unfoldable pub size_items : List Item → ℕ
unfolding size_all
size_items [] = 0
size_items (must bs ∷ items) = length bs + size_items items
size_items (may chunks ∷ items) = size_all chunks + size_items items

length-join_all : (chunks : List (List ℕ)) → length (join_all chunks) ≡ size_all chunks
unfolding size_all
length-join_all [] = refl
length-join_all (bs ∷ chunks) =
    omega (arith, length-append {0} bs (join_all chunks), length-join_all chunks)

pub length-bytes_of_items : (items : List Item) → length (bytes_of_items items) ≡ size_items items
unfolding size_items
length-bytes_of_items [] = refl
length-bytes_of_items (must bs ∷ items) =
    omega (arith, length-append {0} bs (bytes_of_items items), length-bytes_of_items items)
length-bytes_of_items (may chunks ∷ items) = omega (
  arith,
  length-append {0} (join_all chunks) (bytes_of_items items),
  length-join_all chunks,
  length-bytes_of_items items,
)

pub size_all-append : (xs ys : List (List ℕ)) → size_all (xs ++ ys) ≡ size_all xs + size_all ys
unfolding size_all
size_all-append [] ys = omega arith
size_all-append (x ∷ xs) ys = omega (arith, size_all-append xs ys)

pub size_items-append : (xs ys : List Item) → size_items (xs ++ ys) ≡ size_items xs + size_items ys
unfolding size_items
size_items-append [] ys = omega arith
size_items-append (must bs ∷ xs) ys = omega (arith, size_items-append xs ys)
size_items-append (may chunks ∷ xs) ys = omega (arith, size_items-append xs ys)

pub size_items-musts : (chunks : List (List ℕ)) → size_items (musts chunks) ≡ size_all chunks
unfolding size_items size_all
size_items-musts [] = refl
size_items-musts (bs ∷ chunks) = omega (arith, size_items-musts chunks)

pub size_all-if_any : (bs : List ℕ) → size_all (if_any bs) ≡ length bs
unfolding size_all
size_all-if_any [] = refl
size_all-if_any (b ∷ bs) = omega arith

pub length-take {ℓ} : {A : Type ℓ} (bs : List A) → length (take (length bs) bs) ≡ length bs
length-take [] = refl
length-take (b ∷ bs) = ap suc (length-take bs)

pub length-text16 : (bs : List ℕ) → length bs < 65536 → length (text16 bs) ≡ length bs
length-text16 bs h =
    let whole : length bs % 2 ^ 16 ≡ length bs = omega (arith, h) in rw whole (length-take bs)

pub length-text32 : (bs : List ℕ) → length bs < 2 ^ 32 → length (text32 bs) ≡ length bs
length-text32 bs h =
    let whole : length bs % 2 ^ 32 ≡ length bs = omega (arith, h) in rw whole (length-take bs)

-- Texts whose lengths fit the members of the structures.
pub record Fits (a : AccountText) : Type 0 where
  pub address_fits : length a.xmr_deposit_address < 65536
  pub id_token_fits : length a.id_token < 65536
  pub name_fits : length a.name < 65536
  pub avatar_fits : length a.avatar < 2 ^ 32

pub size_all-account_texts :
    (a : AccountText) → Fits a → size_all (account_texts a) ≡ account_length a
unfolding size_all
size_all-account_texts a h = omega (
  arith,
  size_all-append (if_any (text16 a.xmr_deposit_address))
      (text16 a.id_token ∷ text16 a.name ∷ if_any (text32 a.avatar)),
  size_all-if_any (text16 a.xmr_deposit_address),
  size_all-if_any (text32 a.avatar),
  length-text16 a.xmr_deposit_address h.address_fits,
  length-text16 a.id_token h.id_token_fits,
  length-text16 a.name h.name_fits,
  length-text32 a.avatar h.avatar_fits,
)

pub size_all-signup_account_texts :
    (a : AccountText) → Fits a → size_all (signup_account_texts a) ≡ account_length a
unfolding size_all
size_all-signup_account_texts a h = omega (
  arith,
  size_all-append (if_any (text32 a.avatar)) (if_any (text16 a.xmr_deposit_address)),
  size_all-if_any (text16 a.xmr_deposit_address),
  size_all-if_any (text32 a.avatar),
  length-text16 a.xmr_deposit_address h.address_fits,
  length-text16 a.id_token h.id_token_fits,
  length-text16 a.name h.name_fits,
  length-text32 a.avatar h.avatar_fits,
)

pub size_all-poker_info_player :
    (a : AccountText) (p : Player) → Fits a → size_all (poker_info_player a p) ≡ 28 + info_length a
unfolding size_all
size_all-poker_info_player a p h = omega (
  arith,
  size_all-append (if_any (text16 a.name)) (if_any (text32 a.avatar)),
  size_all-if_any (text16 a.name),
  size_all-if_any (text32 a.avatar),
  length-text16 a.name h.name_fits,
  length-text32 a.avatar h.avatar_fits,
)

pub size_all-poker_state_player :
    (a : AccountText) (p : Player) → Fits a → size_all (poker_state_player a p) ≡ 24 + length a.name
unfolding size_all
size_all-poker_state_player a p h =
    omega (arith, size_all-if_any (text16 a.name), length-text16 a.name h.name_fits)

pub size_items-player_items :
    (size : ℕ) (texts : AccountText → ℕ) (part : AccountText → Player → List (List ℕ))
    (p : PokerText) (players : List Player)
    → ((a : AccountText) (q : Player) → Fits a → size_all (part a q) ≡ size + texts a)
    → All (λ q. Fits (p.account_of q)) players
    → size_items (player_items part p players) ≡ players_length size texts p players
unfolding size_items
size_items-player_items size texts part p [] each h = refl
size_items-player_items size texts part p (q ∷ players) each h =
    omega (
      arith,
      each (p.account_of q) q h.0,
      size_items-player_items size texts part p players each h.1,
    )

pub size_items-session_items :
    (pokers : List PokerText)
    → All (λ p. All (λ q. Fits (p.account_of q)) p.poker.players) pokers
    → size_items (session_items pokers) ≡ sessions_length pokers
unfolding size_items
size_items-session_items [] h = refl
size_items-session_items (p ∷ pokers) h = omega (
  arith,
  size_items-append (player_items poker_info_player p p.poker.players) (session_items pokers),
  size_items-player_items 28 info_length poker_info_player p p.poker.players
      size_all-poker_info_player h.0,
  size_items-session_items pokers h.1,
)

pub size_items-table_items :
    (tables : List TableText) → size_items (table_items tables) ≡ tables_length tables
unfolding size_items
size_items-table_items [] = refl
size_items-table_items (t ∷ tables) = omega (arith, size_items-table_items tables)

pub size_items-score_items :
    (scores : List (ℕ × ℕ)) → size_items (score_items scores) ≡ 16 * length scores
unfolding size_items
size_items-score_items [] = refl
size_items-score_items ((account, bet_diff) ∷ scores) = omega (arith, size_items-score_items scores)
