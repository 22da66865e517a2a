-- ===== src/GeeRpc/Dial/Tests.antt =====
-- A dial that succeeds, and those that do not.
use distributed_study.Common.{◌≡◌, refl, bytes, str_beq, none, some, [], true, false}
use distributed_study.GeeRpc.Options.{parse_option}
use distributed_study.GeeRpc.Client.{new_client_codec, is_available}
use distributed_study.GeeRpc.Dial.{
  open_conn, closed_conn, close_conn, encode, refused, NewClientFunc, new_client, end_dial,
  dial_timeout, dial,
}
use distributed_study.GeeRpc.Dial.Outcomes.{is_sound, is_open, is_closed}

program : Unit {0}
unfolding parse_option new_client_codec is_available close_conn encode new_client end_dial
    dial_timeout dial is_sound is_open is_closed str_beq
program = tt

dials :
    (dial none [] open_conn 10 false
      ≡ some (record {
        result = record { client = some new_client_codec; error = none; conn = open_conn };
        leaked = false;
      }))
    × (dial (some (bytes "broken pipe")) [] open_conn 10 false
        ≡ some (record { result = refused (bytes "broken pipe") closed_conn; leaked = false }))
    × (dial none [] open_conn 10 true
        ≡ some (record {
          result = refused (bytes "rpc client: connect timeout") closed_conn;
          leaked = true;
        }))
unfolding program
dials = (refl, refl, refl)

-- A `newClientFunc` that returns neither a client nor an error.
abbrev nothing : NewClientFunc
nothing conn opt = some (record { client = none; error = none; conn = conn })

neither :
    dial_timeout nothing [] open_conn 0 false
    ≡ some (record {
      result = record { client = none; error = none; conn = closed_conn };
      leaked = false;
    })
unfolding program
neither = refl
