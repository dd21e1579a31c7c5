-- ===== src/Types/Bitlist/Accepted.antt =====
-- What decoding accepts passes the check, in either mode.
use zssz.Prelude.{ℕ, ◌≡◌, List, none, arith}
use zssz.Outcome.{ok}
use zssz.Bitfields.{bitlist_check}
use zssz.Dec.{DecodingReader}
use zssz.Types.Bitlist.{decode}

-- Whatever the reader holds, and in fuzzing mode too, a bitlist that `Decode` returns passes
-- `BitlistCheck`.
pub bitlist_decode_checked :
    (bit_limit : ℕ) (dr dr' : DecodingReader) (bs : List ℕ)
    → decode bit_limit dr ≡ ok bs dr'
    → bitlist_check bs bit_limit ≡ none
unfolding decode
bitlist_decode_checked bit_limit dr dr' bs e = ground arith
