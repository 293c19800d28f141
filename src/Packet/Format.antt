-- ===== src/Packet/Format.antt =====
-- fixed-length/server.c: `struct Packet` as bytes, its length in network byte order.
use computer_science_notes.Base.{
  ℕ, ◌+◌, ◌-◌, ◌*◌, ◌/◌, ◌%◌, ◌^◌, ◌<◌, ◌≡◌, List, [], ◌∷◌, ◌++◌, length, ltb, if◌then◌else◌, arith,
}

-- The four bytes of `htonl(n)`, and the number that `ntohl` makes of four bytes.
unfoldable pub htonl : ℕ → List ℕ
htonl n = n / 256 / 256 / 256 % 256 ∷ n / 256 / 256 % 256 ∷ n / 256 % 256 ∷ n % 256 ∷ []

unfoldable pub ntohl : List ℕ → ℕ
ntohl [] = 0
ntohl (a ∷ []) = 0
ntohl (a ∷ b ∷ []) = 0
ntohl (a ∷ b ∷ c ∷ []) = 0
ntohl (a ∷ b ∷ c ∷ d ∷ bs) = ((a * 256 + b) * 256 + c) * 256 + d

-- The bytes of a packet that `writen(conn_sockfd,&send_buf,4+length)` sends.
unfoldable pub packet : List ℕ → List ℕ
packet text = htonl (length text) ++ text

-- The packet's `int` as the `size_t` that `readn` takes.
unfoldable pub as_size : ℕ → ℕ
as_size len = if ltb len (2 ^ 31) then len else 2 ^ 64 - 2 ^ 32 + len

-- The length that is sent is the length that is received, for every 32-bit length.
pub ntohl-htonl : (n : ℕ) → n < 2 ^ 32 → ntohl (htonl n) ≡ n
unfolding htonl ntohl
ntohl-htonl n small = omega arith
