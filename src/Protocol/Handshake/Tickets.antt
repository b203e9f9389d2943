-- ===== src/Protocol/Handshake/Tickets.antt =====
-- internal/protocol/mmtls_protocol.go: `parseNewSessionTicket` on any message, and on a list of entries.
use yyb_go.Prelude.{
  ℕ, zero, suc, ◌+◌, ◌-◌, ◌^◌, ◌≤◌, ◌<◌, ◌≡◌, refl, subst, ap, false, ◌||◌, List, [], ◌∷◌, ◌++◌,
  arith, ltb, if-both, length, take, drop, map, All, take-length-append, drop-length-append,
  length-append, length-take, length-drop, append_assoc, Bytes,
}
use yyb_go.Prelude.Outcome.{Outcome, ok, err, panic}
use yyb_go.Protocol.BigEndian.{put_uint32, uint32, uint32-put}
use yyb_go.Protocol.Handshake.{
  PskTicket, Error, ticket_of, add_ticket, tickets_loop, parse_new_session_ticket,
}

-- The bytes that the tickets take in the message, with the length in front of each.
abbrev pub size_of : List PskTicket → ℕ
size_of [] = 0
size_of (t ∷ ts) = 4 + (length t.ticket_entry + size_of ts)

-- The tickets of an outcome: there is one, of at most `count` tickets that fit in `room` bytes, each
-- with an entry of five bytes or more.
abbrev pub Tickets : ℕ → ℕ → Outcome Error (List PskTicket) → Type 0
Tickets count room (ok ts) =
    (length ts ≤ count)
    × (size_of ts ≤ room)
    × All (λ (t : PskTicket). 5 ≤ length t.ticket_entry) ts
Tickets count room (err e) = ⊥
Tickets count room panic = ⊥

ticket_of_lem :
    (entry : Bytes)
    → 5 ≤ length entry
    → (t : PskTicket) × (ticket_of entry ≡ ok t) × (t.ticket_entry ≡ entry)
unfolding ticket_of
ticket_of_lem [] h = absurd (omega arith)
ticket_of_lem (_ ∷ []) h = absurd (omega arith)
ticket_of_lem (_ ∷ _ ∷ []) h = absurd (omega arith)
ticket_of_lem (_ ∷ _ ∷ _ ∷ []) h = absurd (omega arith)
ticket_of_lem (_ ∷ _ ∷ _ ∷ _ ∷ []) h = absurd (omega arith)
ticket_of_lem (p ∷ l3 ∷ l2 ∷ l1 ∷ l0 ∷ more) h = (_, refl, refl)

add_ticket-Tickets :
    (count elen room : ℕ) (entry : Bytes) (later : Outcome Error (List PskTicket))
    → length entry ≡ elen
    → 5 ≤ elen
    → elen ≤ room
    → Tickets count (room - elen) later
    → Tickets (suc count) (4 + room) (add_ticket (ticket_of entry) later)
unfolding add_ticket
add_ticket-Tickets count elen room entry (err e) size long fits h = absurd h
add_ticket-Tickets count elen room entry panic size long fits h = absurd h
add_ticket-Tickets count elen room entry (ok ts) size long fits (few, small, whole) =
    let (t, made, kept) = ticket_of_lem entry (omega arith) in
    let entry_size = ap (λ (b : Bytes). length b) kept in
    rw made (omega arith, omega arith, (omega arith, whole))

tickets_loop-Tickets :
    (count : ℕ) (rest : Bytes) → Tickets count (length rest) (tickets_loop count rest)
unfolding tickets_loop
tickets_loop-Tickets zero rest = (omega arith, omega arith, tt)
tickets_loop-Tickets (suc count) [] = (omega arith, omega arith, tt)
tickets_loop-Tickets (suc count) (_ ∷ []) = (omega arith, omega arith, tt)
tickets_loop-Tickets (suc count) (_ ∷ _ ∷ []) = (omega arith, omega arith, tt)
tickets_loop-Tickets (suc count) (_ ∷ _ ∷ _ ∷ []) = (omega arith, omega arith, tt)
tickets_loop-Tickets (suc count) (e3 ∷ e2 ∷ e1 ∷ e0 ∷ rest) =
    let elen = uint32 e3 e2 e1 e0 in
    if-both (Tickets (suc count) (length (e3 ∷ e2 ∷ e1 ∷ e0 ∷ rest)))
      (ltb (length rest) elen || ltb elen 5) (λ _. (omega arith, omega arith, tt))
      (λ inside.
        let fits : elen ≤ length rest = ground arith in
        let long : 5 ≤ elen = ground arith in
        let later =
          subst (λ (n : ℕ). Tickets count n (tickets_loop count (drop elen rest)))
            (length-drop elen rest) (tickets_loop-Tickets count (drop elen rest)) in
        subst
          (λ (n : ℕ).
            Tickets (suc count) n
              (add_ticket (ticket_of (take elen rest)) (tickets_loop count (drop elen rest))))
          (omega arith)
          (add_ticket-Tickets count elen (length rest) (take elen rest)
            (tickets_loop count (drop elen rest)) (omega (arith, length-take elen rest)) long fits
            later))

-- On every message `parseNewSessionTicket` returns without a panic at most as many tickets as the
-- message's first byte says, each with an entry of five bytes or more, and all of them, with the
-- lengths in front, take no more than the message has behind that byte.
pub parse_new_session_ticket-Tickets :
    (count : ℕ) (rest : Bytes)
    → Tickets count (length rest) (parse_new_session_ticket (count ∷ rest))
unfolding parse_new_session_ticket
parse_new_session_ticket-Tickets count rest = tickets_loop-Tickets count rest

-- A server's message: the number of entries, and each with its length in front.
abbrev pub encode_entries : List Bytes → Bytes
encode_entries [] = []
encode_entries (entry ∷ entries) = put_uint32 (length entry) ++ (entry ++ encode_entries entries)

abbrev pub IsTicketEntry : Bytes → Type 0
IsTicketEntry entry = (5 ≤ length entry) × (length entry < 2 ^ 32)

tickets_loop-encode :
    (entries : List Bytes) (more : Bytes)
    → All IsTicketEntry entries
    → (ts : List PskTicket) × (tickets_loop (length entries) (encode_entries entries ++ more)
        ≡ ok ts)
      × (map (λ (t : PskTicket). t.ticket_entry) ts ≡ entries)
unfolding tickets_loop add_ticket
tickets_loop-encode [] more _ = ([], refl, refl)
tickets_loop-encode (entry ∷ entries) more ((long, short), rest) =
    let (ts, parsed, kept) = tickets_loop-encode entries more rest in
    let (t, made, same) = ticket_of_lem entry long in
    let tail = encode_entries entries ++ more in
    let guard : (ltb (length (entry ++ tail)) (length entry) || ltb (length entry) 5) ≡ false =
      ground (arith, length-append entry tail) in
    (
      t ∷ ts,
      rw
          (
            append_assoc entry (encode_entries entries) more,
            uint32-put (length entry) short,
            guard,
            take-length-append (length entry) entry tail refl,
            drop-length-append (length entry) entry tail refl,
            made,
            parsed,
          )
          refl,
      rw (same, kept) refl,
    )

-- `parseNewSessionTicket` returns the entries of a message in order, whatever follows them, if each has
-- from five to 2 ^ 32 - 1 bytes.
pub parse_new_session_ticket-encode_entries :
    (entries : List Bytes) (more : Bytes)
    → All IsTicketEntry entries
    → (ts : List PskTicket) × (parse_new_session_ticket
          (length entries ∷ (encode_entries entries ++ more))
        ≡ ok ts)
      × (map (λ (t : PskTicket). t.ticket_entry) ts ≡ entries)
unfolding parse_new_session_ticket
parse_new_session_ticket-encode_entries entries more h = tickets_loop-encode entries more h
