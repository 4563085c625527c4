-- ===== src/Tests/Heads.antt =====
-- A head that arrives in two reads.
use latticeshield.Prelude.{List, [], ◌∷◌, Option, some, arith}
use latticeshield.Prelude.Bytes.{Bytes}
use latticeshield.Prelude.Text.{codes}
use latticeshield.Bridge.Tls.{read_http_head_inplace}
use latticeshield.Bridge.Tls.Head.{Bounded, read_http_head_inplace-Bounded}

abbrev reads : List (Option Bytes)
reads = some (codes "GET / HTTP/1.1\r\n") ∷ some (codes "\r\nbody") ∷ []

read_http_head_inplace-Bounded_example : Bounded [] reads (read_http_head_inplace reads [])
read_http_head_inplace-Bounded_example =
    read_http_head_inplace-Bounded reads (omega arith, (omega arith, tt))
