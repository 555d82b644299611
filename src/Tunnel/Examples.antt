-- ===== src/Tunnel/Examples.antt =====
-- Witnesses for the theorems on the messages of a tunnel.
use lapdev.Base.{◌≡◌, refl, true, [], ◌∷◌}
use lapdev.Tunnel.{ok, TunnelTarget, udp, is_utf8, write_stream_open_request}
use lapdev.Tunnel.Roundtrip.{read_written, read_stream_open_request-write}

-- "é:53"
abbrev resolver : TunnelTarget
resolver = record { host = 0xc3 ∷ 0xa9 ∷ []; port = 53 }

text : is_utf8 resolver.host ≡ true
unfolding is_utf8
text = refl

read_stream_open_request-write_example :
    read_written (write_stream_open_request udp resolver) (7 ∷ [])
    ≡ ok (record { protocol = udp; target = resolver }, 7 ∷ [])
read_stream_open_request-write_example = read_stream_open_request-write udp resolver (7 ∷ []) text
