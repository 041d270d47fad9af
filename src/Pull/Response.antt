-- ===== src/Pull/Response.antt =====
-- `WriteResponse` and what it calls in pull/src/handler.cc. zlib is a parameter, `Z` its stream; the connection is known
-- by the `Accept-Encoding` header's value, and what is printed and written to it is the result.
pub mod Framed
pub mod Gzip
pub mod Sample
mod Tests
use prometheus_cpp.Common.{
  ℕ, zero, suc, ◌+◌, Bool, true, false, not, List, [], ◌∷◌, ◌++◌, Option, none, some, Bytes, codes,
  length, take, ◌%◌, ◌^◌, is_empty, has_prefix, show_uint, ◌==◌, if◌then◌else◌,
}

-- A stream behind `deflateInit2` and the input, and a round of `deflate` with `Z_FINISH` and 32768 bytes of room: its
-- answer and what it writes.
pub data DeflateResult : Type 0 where
  z_ok z_stream_end z_error : DeflateResult

pub record Zlib (Z : Type 0) : Type 0 where
  -- The window's bits, the memory level, and the input.
  pub deflate_init : ℕ → ℕ → Bytes → Option Z
  pub deflate : Z → DeflateResult × Bytes × Z

-- `std::strstr(s, part) != nullptr`.
unfoldable pub contains : Bytes → Bytes → Bool
contains part [] = has_prefix part []
contains part (c ∷ s) = if has_prefix part (c ∷ s) then true else contains part s

unfoldable pub is_encoding_accepted : Option Bytes → Bytes → Bool
unfolding contains
is_encoding_accepted none encoding = false
is_encoding_accepted (some accept_encoding) encoding = contains encoding accept_encoding

module _ {Z : Type 0} (zlib : Zlib Z) where
  -- The `do` loop with fuel, and what follows it; `none` means that the fuel ran out.
  unfoldable pub deflate_loop : ℕ → Z → Bytes → Option Bytes
  deflate_loop zero zs output = none
  deflate_loop (suc fuel) zs output =
      let (ret, written, zs') = zlib.deflate zs in
      elim ret [
        | z_ok ↦ deflate_loop fuel zs' (output ++ written)
        | z_stream_end ↦ some (output ++ written)
        | z_error ↦ some []
      ]

  -- `16 + MAX_WBITS` is 31. The size goes to an `unsigned int` of 32 bits, so zlib is given no more of the input.
  unfoldable pub gzip_compress : ℕ → Bytes → Option Bytes
  unfolding deflate_loop
  gzip_compress fuel input = elim (zlib.deflate_init 31 9 (take (length input % 2 ^ 32) input)) [
    | none ↦ some []
    | some zs ↦ deflate_loop fuel zs []
  ]

abbrev pub status_line : Bytes
status_line = codes "HTTP/1.1 200 OK\r\n" ++ codes "Content-Type: text/plain; charset=utf-8\r\n"

-- The rest of the head, for a body of the size, and the body.
abbrev pub length_and_body : Bytes → Bytes
length_and_body body =
    codes "Content-Length: " ++ (show_uint (length body) ++ (codes "\r\n\r\n" ++ body))

-- What is sent, and the size of its body; the compressed body is given, and empty where there is none.
unfoldable pub write_response : Option Bytes → Bytes → Bytes → Bytes × ℕ
unfolding is_encoding_accepted
write_response accept_encoding compressed body =
    if is_encoding_accepted accept_encoding (codes "gzip")
    then if not (is_empty compressed)
      then (
        status_line ++ (codes "Content-Encoding: gzip\r\n" ++ length_and_body compressed),
        length compressed,
      )
      else (status_line ++ length_and_body body, length body)
    else (status_line ++ length_and_body body, length body)
