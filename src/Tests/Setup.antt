-- ===== src/Tests/Setup.antt =====
-- The theorems on the set-up of the program and on what it writes, at concrete inputs.
use multipath_proxy.Net.SockAddr.{zero_addr}
use multipath_proxy.Net.Socket
use multipath_proxy.Net.Listener
use multipath_proxy.Net.Connection.{Floats, fresh_connection}
use multipath_proxy.Net.Tcp.Ipv4.{make_listener}
use multipath_proxy.Net.Proxy.Life.{Ends, construct, construct-Ends}
use multipath_proxy.Metrics.{Sheet, heading, write_row}
use multipath_proxy.Metrics.Rows.{IsRow, write_row-IsRow}
use multipath_proxy.Prelude.{pos, ℕ, ◌≡◌, refl, true, List, [], ◌∷◌, none, some, arith}
use multipath_proxy.Outcome.{done}
use multipath_proxy.Text.{Text, codes}
use multipath_proxy.Action.{Action}
use multipath_proxy.Args.{Args, Parsed, remote, init, initial, starts, letter_r, letter_t}
use multipath_proxy.Args.Last.{init-summary}
use multipath_proxy.Net.SockAddr.Parse.{Parser, parsed, from_endpoint, set_ip}
use multipath_proxy.Net.Bond.Life
use multipath_proxy.Main.{Locals, main}
use multipath_proxy.Main.Cleanup.{MainEnds, main-Ends}
use multipath_proxy.Tests.Connections.{simple, table, idle}

-- -r -t "a" -t "b"
abbrev options : List Parsed
options = (letter_r, none) ∷ (letter_t, some (codes "a")) ∷ (letter_t, some (codes "b")) ∷ []

init-summary_example :
    init (codes "mpp") options
    ≡ done (starts (record initial { mode = remote; ter_enabled = true; ter = codes "b" }))
init-summary_example =
    init-summary (codes "mpp") options (omega arith, omega arith, omega arith, tt)

abbrev constant : Parser
constant = record { inet_pton = λ s. parsed 0x0100007F; stoi = λ s. done (pos 80) }

-- Both ways of the local side.
abbrev both_ways : Args
both_ways = record initial {
  ter_enabled = true;
  ter = codes "a";
  sat_enabled = true;
  sat = codes "b";
  proxy = codes "c";
}

abbrev serve_nothing : Args → Action (Locals simple) (Unit {0})
serve_nothing a s = (done tt, s)

main-Ends_example :
    MainEnds simple table idle
      (λ fd e. refl)
      constant
      0
      serve_nothing
      both_ways
      (main simple constant 0 serve_nothing both_ways idle)
unfolding from_endpoint set_ip
main-Ends_example =
    main-Ends simple table idle (λ fd e. refl) constant 0 serve_nothing both_ways _ _ refl refl refl

construct-Ends_example : Ends simple (construct simple zero_addr idle)
unfolding make_listener Listener.make Listener.new Listener.set_up Socket.new_socket Socket.bind
    Socket.listen Socket.set_sock_opt
construct-Ends_example =
    construct-Ends simple zero_addr 3 idle (record idle { world = 3 ∷ [] }) refl

abbrev whole : Floats
whole = record { Float = ℕ; zero = 0; rate = λ bytes now last. bytes }

show_digit : ℕ → Text
show_digit n = 48 ∷ []

abbrev sheet : Sheet simple whole show_digit
sheet = record {
  host = record { world = 3 ∷ []; connections = (3, 7) ∷ [] };
  objects = λ self. fresh_connection self 3 0;
  file = heading;
}

write_row-IsRow_example :
    IsRow simple whole show_digit heading (write_row simple whole show_digit 1 2 (3, 7) sheet)
unfolding show_digit
write_row-IsRow_example = write_row-IsRow simple whole show_digit 1 2 3 7 sheet (λ x. (refl, refl))
