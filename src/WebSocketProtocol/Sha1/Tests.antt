-- ===== src/WebSocketProtocol/Sha1/Tests.antt =====
-- Runs of the digest, and the theorems at concrete inputs.
use fast_net.Prelude.{ℕ, ◌+◌, ◌*◌, ◌%◌, ◌^◌, ◌≡◌, refl, some, List, codes, arith}
use fast_net.Prelude.Memory.{write_bytes}
use fast_net.WebSocketProtocol.Sha1.{
  reset, update, flush, process_block, update_loop, put_byte, put_zeros, put_bytes,
}
use fast_net.WebSocketProtocol.Sha1.{
  finish_block, finish_last, finish, finalize, digest, sha1_digest,
}
use fast_net.WebSocketProtocol.Sha1.Update.{absorb_all, update-absorb}
use fast_net.WebSocketProtocol.Sha1.Padding.{sha1_digest_lem}
use fast_net.WebSocketProtocol.Sha1.Rfc3174.{sha1}

abbrev abc : List ℕ
abc = codes "abc"

sha1_abc :
    sha1_digest abc
    ≡ some (
        digest (record {
          a = 0xa9993e36;
          b = 0x4706816a;
          c = 0xba3e2571;
          d = 0x7850c26c;
          e = 0x9cd0d89d;
        }))
unfolding sha1_digest update update_loop flush process_block finalize finish finish_last put_byte
    put_zeros put_bytes finish_block reset write_bytes digest
sha1_abc = refl

update-absorb_example :
    update reset abc
    ≡ some (
        absorb_all (record reset { total_bits = (reset.total_bits + 3 * 8 % 2 ^ 64) % 2 ^ 64 }) abc)
update-absorb_example = update-absorb reset abc (unfold reset in omega arith)

sha1_digest_lem_example : sha1_digest abc ≡ some (sha1 abc)
sha1_digest_lem_example = sha1_digest_lem abc
