-- ===== src/Contract/Validate/Identity.antt =====
-- The checks of identities and sequence numbers.
use tycho_simulation_server.Base.{
  ℕ, ◌+◌, ◌<◌, ◌≡◌, ◌↔◌, Option, some, Text, ◌≢◌, text_eq_iff, ok, err, arith, max_u64,
}
use tycho_simulation_server.Contract.Errors.{unexpected_message_seq}
use tycho_simulation_server.Contract.Validate.{
  ensure_stream_id, ensure_snapshot_id, ensure_chain_id, ensure_message_seq, next_message_seq,
}

pub ensure_stream_id_iff : (a b : Text) → (ensure_stream_id a b ≡ ok tt) ↔ (a ≡ b)
unfolding ensure_stream_id
ensure_stream_id_iff a b = ground (arith, text_eq_iff a b)

pub ensure_snapshot_id_iff : (a b : Text) → (ensure_snapshot_id a b ≡ ok tt) ↔ (a ≡ b)
unfolding ensure_snapshot_id
ensure_snapshot_id_iff a b = ground (arith, text_eq_iff a b)

pub ensure_chain_id_iff : (a b : ℕ) → (ensure_chain_id a b ≡ ok tt) ↔ (a ≡ b)
unfolding ensure_chain_id
ensure_chain_id_iff a b = ground arith

pub ensure_message_seq_iff :
    (e : Option ℕ) (n : ℕ) → (ensure_message_seq e n ≡ ok tt) ↔ (e ≡ some n)
unfolding ensure_message_seq
ensure_message_seq_iff e n = ground arith

-- The next sequence number is the successor, and there is one below u64::MAX.
pub next_message_seq_iff : (n k : ℕ) → (next_message_seq n ≡ ok k) ↔ ((n < max_u64) × (k ≡ n + 1))
unfolding next_message_seq
next_message_seq_iff n k = ground arith

pub ensure_message_seq_ne :
    (n m : ℕ) → n ≢ m → ensure_message_seq (some n) m ≡ err (unexpected_message_seq n m)
unfolding ensure_message_seq
ensure_message_seq_ne n m h = ground arith
