-- ===== src/Protocol/Record/Client.antt =====
-- internal/protocol/mmtls_client.go: `nextRecord`, which cuts the records out of the reads of a
-- connection. A connection is the list of what its `Read` calls return, each at most 65536 bytes; the
-- end of the list is a failing `Read`, and an empty entry a `Read` of 0 bytes.
use yyb_go.Prelude.{
  ℕ, ◌≡◌, refl, ap, ◌∙◌, List, [], ◌∷◌, ◌++◌, append-nil, append_assoc, Bytes, drop, All, ◌≢◌,
  subst,
}
use yyb_go.Prelude.Outcome.{Outcome, ok, err, panic}
use yyb_go.Protocol.Record.{Rec, parse_records}
use yyb_go.Protocol.Record.Stream.{parse_records-append}

-- The fields of `mmtlsClient` that `nextRecord` reads and writes.
pub record Reader : Type 0 where
  pub reads : List Bytes
  pub rxbuf : Bytes
  pub recq : List Rec

pub data ReadError : Type 0 where
  read_failed eof : ReadError

abbrev reader : List Bytes → Bytes → List Rec → Reader
reader reads rxbuf recq = record { reads = reads; rxbuf = rxbuf; recq = recq }

-- The records that the buffer holds go to the queue, whose head is returned; else the loop reads on.
or_read :
    List Bytes
    → Bytes
    → List Rec × ℕ
    → Reader × Outcome ReadError Rec
    → Reader × Outcome ReadError Rec
or_read reads buf (r ∷ rs, consumed) next = (reader reads (drop consumed buf) rs, ok r)
or_read reads buf ([], consumed) next = next

-- `for len(m.recq) == 0 { … }` with an empty queue.
read_loop : List Bytes → Bytes → Reader × Outcome ReadError Rec
read_loop [] buf = or_read [] buf (parse_records buf) (reader [] buf [], err read_failed)
read_loop ([] ∷ reads) buf =
    or_read ([] ∷ reads) buf (parse_records buf) (reader reads buf [], err eof)
read_loop ((b ∷ bs) ∷ reads) buf =
    let next = read_loop reads (buf ++ b ∷ bs) in
    or_read ((b ∷ bs) ∷ reads) buf (parse_records buf) next

next_head : List Bytes → Bytes → List Rec → Reader × Outcome ReadError Rec
next_head reads buf (r ∷ rs) = (reader reads buf rs, ok r)
next_head reads buf [] = read_loop reads buf

unfoldable pub next_record : Reader → Reader × Outcome ReadError Rec
unfolding next_head read_loop or_read
next_record m = next_head m.reads m.rxbuf m.recq

-- All that the connection will still deliver, as one byte string.
abbrev pub concat : List Bytes → Bytes
concat [] = []
concat (c ∷ cs) = c ++ concat cs

-- The abstract view: the records of the whole stream that have not been returned.
unfoldable pub pending : Reader → List Rec
pending m = m.recq ++ (parse_records (m.rxbuf ++ concat m.reads)).0

-- What a call of `nextRecord` may do to the stream of records `rs` that was pending.
abbrev pub Delivers : List Rec → Reader × Outcome ReadError Rec → Type 0
Delivers rs (m', ok r) = rs ≡ r ∷ pending m'
Delivers rs (m', err e) = (rs ≡ []) × (pending m' ≡ []) × (e ≡ read_failed)
Delivers rs (m', panic) = ⊥

-- No `Read` of 0 bytes without an error.
abbrev pub IsLive : List Bytes → Type 0
IsLive = All (λ (c : Bytes). c ≢ [])

first_part :
    (a b : Bytes)
    → (rs : List Rec) (n : ℕ) → parse_records a ≡ (rs, n)
    → (parse_records (a ++ b)).0 ≡ rs ++ (parse_records (drop n a ++ b)).0
first_part a b rs n e =
    ap (λ (p : List Rec × ℕ). p.0) (parse_records-append a b)
    ∙ ap (λ (p : List Rec × ℕ). p.0 ++ (parse_records (drop p.1 a ++ b)).0) e

or_read-Delivers :
    (reads : List Bytes) (buf : Bytes) (p : List Rec × ℕ) (next : Reader × Outcome ReadError Rec)
    → parse_records buf ≡ p
    → (p.0 ≡ [] → Delivers (parse_records (buf ++ concat reads)).0 next)
    → Delivers (parse_records (buf ++ concat reads)).0 (or_read reads buf p next)
unfolding or_read pending
or_read-Delivers reads buf (r ∷ rs, n) next e otherwise = first_part buf (concat reads) (r ∷ rs) n e
or_read-Delivers reads buf ([], n) next e otherwise = otherwise refl

-- With nothing left to read, no record is pending where the buffer holds none.
no_more : (buf : Bytes) → (parse_records buf).0 ≡ [] → (parse_records (buf ++ [])).0 ≡ []
no_more buf e = rw append-nil e

read_loop-Delivers :
    (reads : List Bytes) (buf : Bytes)
    → IsLive reads
    → Delivers (parse_records (buf ++ concat reads)).0 (read_loop reads buf)
unfolding read_loop pending
read_loop-Delivers [] buf live =
    or_read-Delivers [] buf (parse_records buf) _ refl λ e. (no_more buf e, no_more buf e, refl)
read_loop-Delivers ([] ∷ reads) buf (h, live) = absurd (h refl)
read_loop-Delivers ((b ∷ bs) ∷ reads) buf (h, live) =
    or_read-Delivers ((b ∷ bs) ∷ reads) buf (parse_records buf) _ refl λ e.
      subst (λ (x : Bytes). Delivers (parse_records x).0 (read_loop reads (buf ++ b ∷ bs)))
        (append_assoc buf (b ∷ bs) (concat reads)) (read_loop-Delivers reads (buf ++ b ∷ bs) live)

next_head-Delivers :
    (reads : List Bytes) (buf : Bytes) (recq : List Rec)
    → IsLive reads
    → Delivers (pending (reader reads buf recq)) (next_head reads buf recq)
unfolding next_head pending
next_head-Delivers reads buf (r ∷ rs) live = refl
next_head-Delivers reads buf [] live = read_loop-Delivers reads buf live

-- `nextRecord` returns the first pending record of the stream and leaves the others pending, however
-- the reads cut the stream; it fails, with the connection's error, only when none is pending. The
-- connection has no `Read` of 0 bytes.
pub next_record-Delivers : (m : Reader) → IsLive m.reads → Delivers (pending m) (next_record m)
unfolding next_record
next_record-Delivers m live = next_head-Delivers m.reads m.rxbuf m.recq live
