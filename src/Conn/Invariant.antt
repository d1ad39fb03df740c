-- ===== src/Conn/Invariant.antt =====
-- What a connection holds and has sent, and when its two buffers are valid.
use gtcp.Prelude.{ℕ, zero, suc, ◌≡◌, refl, List, ◌++◌, arith, true, false, if◌then◌else◌}
use gtcp.Prelude.Int.{ℤ, pos, negsuc, pos_part}
use gtcp.Sys.{Sys}
use gtcp.Elastic.RingBuffer.Contents as Inbound
use gtcp.Elastic.Contents as Outbound
use gtcp.Run.{returns, deadlock}
use gtcp.Conn.{Conn, sent_of, took, failed, nothing, lock}

pub record IsValid (c : Conn) : Type 0 where
  pub inbound_valid : Inbound.IsValid c.inbound
  pub outbound_valid : Outbound.IsValid c.outbound

-- The bytes accepted for the peer, in order: those that the kernel has taken, then those that wait.
abbrev pub stream : (sys : Sys) → Conn → sys.Net → List ℕ
stream sys c net = sys.delivered net ++ Outbound.contents c.outbound

-- How many bytes the count of a system call stands for.
pub took-pos_part : (n : ℤ) (k : ℕ) → sent_of n ≡ took k → pos_part n ≡ k
took-pos_part (pos zero) k h = ground arith
took-pos_part (pos (suc n)) k h = ground arith
took-pos_part (negsuc n) k h = ground arith

pub failed-pos_part : (n : ℤ) → sent_of n ≡ failed → pos_part n ≡ 0
failed-pos_part (pos zero) h = ground arith
failed-pos_part (pos (suc n)) h = ground arith
failed-pos_part (negsuc n) h = refl

pub lock_free : (c : Conn) → c.locked ≡ false → lock c ≡ returns (record c { locked = true })
unfolding lock
lock_free c h = λ i. if h i then deadlock else returns (record c { locked = true })

pub nothing-pos_part : (n : ℤ) → sent_of n ≡ nothing → pos_part n ≡ 0
nothing-pos_part (pos zero) h = refl
nothing-pos_part (pos (suc n)) h = ground arith
nothing-pos_part (negsuc n) h = ground arith
