-- ===== src/Packet/Exchange.antt =====
-- fixed-length/server.c: what one side types and the other side prints.
use computer_science_notes.Base.{
  ℕ, zero, suc, ◌+◌, ◌^◌, ◌≤◌, ◌<◌, ◌≡◌, ◌≢◌, refl, sym, ap, ◌∙◌, subst, List, [], ◌∷◌, ◌++◌,
  append-nil, append_assoc, true, length, All, ltb, done, arith, length-append,
}
use computer_science_notes.Stream.Kernel.{Source, IsReliable, Sink, refused}
use computer_science_notes.Stream.Counted.{writen}
use computer_science_notes.Stream.Chat.{buffer_length, fgets}
use computer_science_notes.Stream.Chat.Sending.{
  NoNul, fgets_split, fgets_progress, fgets-NoNul, strlen-length, writen_all,
}
use computer_science_notes.Packet.Format.{htonl, packet, as_size, ntohl-htonl}
use computer_science_notes.Packet.Session.{ended, out_of_bounds, recv_packets, send_packets}
use computer_science_notes.Packet.Printing.{
  concat, packets, IsText, length-packet, two_reads, prints,
}

done-injective : {A : Type 0} {x y : A} → done x ≡ done y → x ≡ y
done-injective e = cc

-- Where no write is refused, the input, which holds no NUL byte, goes out as packets of texts that
-- fit the peer's buffer and make up the input; there is fuel for each byte.
pub packets_sent :
    (snk : Sink) (fuel inner : ℕ) (c : snk.Conn) (input : List ℕ)
    → ((d : snk.Conn) (rest : List ℕ) → (snk.write d rest).0 ≢ refused)
    → length input ≤ fuel
    → 1027 + snk.stalls c < inner
    → NoNul input
    → (ls : List (List ℕ)) × All IsText ls
      × (concat ls ≡ input)
      × (length ls ≤ length input)
      × ((c' : snk.Conn) × (send_packets snk fuel inner c input ≡ done c')
          × (snk.sent c' ≡ snk.sent c ++ packets ls))
unfolding send_packets packet htonl
packets_sent snk fuel inner c [] willing f g h =
    ([], tt, refl, omega arith, (c, refl, sym (append-nil (snk.sent c))))
packets_sent snk zero inner c (b ∷ bs) willing f g h = absurd (omega arith)
packets_sent snk (suc fuel) inner c (b ∷ bs) willing f g h =
    let line = (fgets 1023 (b ∷ bs)).0 in
    let rest = (fgets 1023 (b ∷ bs)).1 in
    let (joined, short) = fgets_split 1023 (b ∷ bs) in
    let (plain, plain') = fgets-NoNul 1023 (b ∷ bs) h in
    let together : length line + length rest ≡ length (b ∷ bs) =
      sym (length-append line rest) ∙ ap length joined in
    let grows = fgets_progress 1022 b bs in
    let bytes = length-packet line in
    let (c1, e, out, less) = writen_all snk willing inner c (packet line) (omega arith) in
    let (ls, texts, covers, few, (c2, e2, out2)) =
      packets_sent snk fuel inner c1 rest willing (omega arith) (omega arith) plain' in
    let ran =
      subst (λ n. writen snk inner c (packet line) n ≡ done (length (packet line), c1)) bytes e in
    (
      line ∷ ls,
      ((short, plain), texts),
      ap (◌++◌ line) covers ∙ joined,
      omega arith,
      (
        c2,
        rw (strlen-length line plain, ran) e2,
        out2
            ∙ ap (λ xs. xs ++ packets ls) out
            ∙ append_assoc (snk.sent c) (packet line) (packets ls),
      ),
    )

-- What is typed on one side, without a NUL byte, is what the other prints, to the byte and in order,
-- when the peer's stream delivers what was sent on a new connection, no call fails, and there is
-- fuel for each byte, interruption and write that takes nothing.
pub typed_is_printed :
    (src : Source) (snk : Sink) (fuel inner : ℕ) (d : src.Conn) (c c' : snk.Conn) (input : List ℕ)
    → IsReliable src
    → ((e : snk.Conn) (rest : List ℕ) → (snk.write e rest).0 ≢ refused)
    → length input ≤ fuel
    → 1027 + snk.stalls c < inner
    → 1027 + src.delays d < inner
    → NoNul input
    → snk.sent c ≡ []
    → send_packets snk fuel inner c input ≡ done c'
    → src.pending d ≡ snk.sent c'
    → recv_packets src (suc fuel) inner d [] ≡ done (ended input)
typed_is_printed src snk fuel inner d c c' input calm willing f g g' h fresh ran wire =
    let (ls, texts, covers, few, (c2, ran2, out)) =
      packets_sent snk fuel inner c input willing f g h in
    let same : c2 ≡ c' = done-injective (sym ran2 ∙ ran) in
    let here : src.pending d ≡ packets ls =
      wire ∙ ap snk.sent (sym same) ∙ out ∙ ap (λ xs. xs ++ packets ls) fresh in
    prints src calm ls (suc fuel) inner d [] texts here (omega arith) g'
    ∙ ap (λ xs. done (ended xs)) covers

-- The length of a packet is not compared with the buffer's: where the peer sends one of more than
-- 1024 bytes with as many bytes behind it, they are stored past the end of the buffer.
pub long_packet_overruns :
    (src : Source) (fuel inner : ℕ) (c : src.Conn) (printed l rest : List ℕ)
    → IsReliable src
    → 1024 < length l
    → length l < 2 ^ 31
    → src.pending c ≡ packet l ++ rest
    → 4 + length l + src.delays c < inner
    → recv_packets src (suc fuel) inner c printed ≡ done (out_of_bounds printed)
unfolding recv_packets packet as_size
long_packet_overruns src fuel inner c printed l rest calm long short here f =
    let n = length l in
    let (c1, c2, e1, e2, left, fewer) =
      two_reads src calm inner n c l rest refl (here ∙ append_assoc (htonl n) l rest) f in
    let small : ltb n (2 ^ 31) ≡ true = ground arith in
    let over : ltb buffer_length n ≡ true = ground arith in
    rw (e1, ntohl-htonl n (omega arith), small, e2, over) refl
