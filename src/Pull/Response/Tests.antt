-- ===== src/Pull/Response/Tests.antt =====
-- A compressed and a plain response, and a compression.
use prometheus_cpp.Common.{[], some, none, has_prefix, codes, show_uint, ◌≡◌, refl, Bytes, arith}
use prometheus_cpp.Pull.Response.{write_response, gzip_compress}
use prometheus_cpp.Pull.Response.Gzip.{Compresses, gzip_compress_lem}
use prometheus_cpp.Pull.Response.Sample.{storing, storing-Ends}

sizes :
    ((write_response (some (codes "deflate, gzip")) (codes "zz") (codes "text")).1 ≡ 2)
    × ((write_response (some (codes "gzip")) [] (codes "text")).1 ≡ 4)
    × (write_response none [] (codes "text") ≡ (
      codes
          "HTTP/1.1 200 OK\r\nContent-Type: text/plain; charset=utf-8\r\nContent-Length: 4\r\n\r\ntext",
      4,
    ))
unfolding write_response has_prefix show_uint
sizes = (refl, refl, refl)

gzip_compress_lem_example :
    (result : Bytes) × (gzip_compress storing 5 (codes "text") ≡ some result)
    × Compresses storing (codes "text") result
gzip_compress_lem_example = gzip_compress_lem storing storing-Ends 5 (codes "text") (omega arith)
