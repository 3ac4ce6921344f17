-- ===== src/Resp/Encoder.antt =====
-- `resp_encode` and the functions that write one reply. Each returns the bytes that it appends.
use redix.Prelude.{[], ◌∷◌, ◌++◌, length, Bytes, codes}
use redix.Prelude.Int.{ℤ}
use redix.Decimal.{to_string, to_string_unsigned}
use redix.Resp.Value.{
  RespValue, Array, null, string, integer, error_message, array, no_elems, elem, size,
}

abbrev pub crlf : Bytes
crlf = b'\r' ∷ b'\n' ∷ []

unfoldable mutual
  pub resp_encode : RespValue → Bytes
  resp_encode null = codes "$-1\r\n"
  resp_encode (string s) = b'$' ∷ (to_string_unsigned (length s) ++ (crlf ++ (s ++ crlf)))
  resp_encode (integer n) = b':' ∷ (to_string n ++ crlf)
  resp_encode (error_message s) = b'-' ∷ (s ++ crlf)
  resp_encode (array vs) = b'*' ∷ (to_string_unsigned (size vs) ++ (crlf ++ encode_elems vs))

  -- the loop over the elements
  pub encode_elems : Array → Bytes
  encode_elems no_elems = []
  encode_elems (elem v vs) = resp_encode v ++ encode_elems vs

unfoldable pub resp_ok : Bytes
resp_ok = codes "+OK\r\n"

unfoldable pub resp_error : Bytes → Bytes
resp_error msg = b'-' ∷ (msg ++ crlf)

unfoldable pub resp_integer : ℤ → Bytes
resp_integer n = b':' ∷ (to_string n ++ crlf)

unfoldable pub resp_bulk : Bytes → Bytes
resp_bulk s = b'$' ∷ (to_string_unsigned (length s) ++ (crlf ++ (s ++ crlf)))

unfoldable pub resp_null_bulk : Bytes
resp_null_bulk = codes "$-1\r\n"

unfoldable pub resp_array : Array → Bytes
unfolding resp_encode
resp_array elems = b'*' ∷ (to_string_unsigned (size elems) ++ (crlf ++ encode_elems elems))
