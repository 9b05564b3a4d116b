-- ===== src/Metrics/Rows.antt =====
-- The columns of metrics.csv (src/metrics/Metrics.cpp).
use mathlib.Core.List.{append_assoc}
use multipath_proxy.Prelude.{
  ◌*◌, true, ℕ, zero, suc, ◌+◌, ◌/◌, ◌%◌, ◌<◌, ◌≤◌, ◌≡◌, refl, ap, ◌∙◌, [], ◌∷◌, ◌++◌, ◌==◌,
  if◌then◌else◌, arith,
}
use multipath_proxy.Outcome.{Outcome, done, throws, fault}
use multipath_proxy.Action.{go_on}
use multipath_proxy.Net.Socket.{Kernel, Answer, ok, failed, or_throw, io_ctl}
use multipath_proxy.Net.Connection.{
  Connection, Floats, get_recv_bytes, get_send_bytes, recv_buffer_size, send_buffer_size,
  lift_world, tiocoutq, fionread,
}
use multipath_proxy.Metrics.{
  newline, heading, Sheet, lift_host, first_part, second_part, last_part, write, write_rest,
  write_fields, write_row,
}
use multipath_proxy.Text.{Text, codes, decimal, digits}

abbrev comma : ℕ
comma = 44

-- How often a character is in a text.
abbrev pub count : ℕ → Text → ℕ
count c [] = 0
count c (x ∷ xs) = (if x == c then 1 else 0) + count c xs

pub count-append : (c : ℕ) (s t : Text) → count c (s ++ t) ≡ count c s + count c t
count-append c [] t = omega arith
count-append c (x ∷ s) t = omega (arith, count-append c s t)

count-digits : (c fuel n : ℕ) → c < 48 → count c (digits fuel n) ≡ 0
unfolding digits
count-digits c zero n h = refl
count-digits c (suc fuel) n h = ground (
  arith,
  count-digits c fuel (n / 10) h,
  count-append c (digits fuel (n / 10)) ((48 + n % 10) ∷ []),
)

count-decimal : (c n : ℕ) → c < 48 → count c (decimal n) ≡ 0
unfolding decimal
count-decimal c n h = count-digits c (n + 1) n h

count-field :
    (c n : ℕ) (rest : Text)
    → c < 48
    → count c (decimal n ++ (codes "," ++ rest)) ≡ count c (codes ",") + count c rest
count-field c n rest h =
    count-append c (decimal n) (codes "," ++ rest) ∙ omega (arith, count-decimal c n h)

module _ {SA : Type 0} (k : Kernel SA) (floats : Floats) (show : floats.Float → Text) (c : ℕ)
    (small : c < 48) (plain : (x : floats.Float) → count c (show x) ≡ 0) where
  count-first_part :
      (time fd : ℕ) (rate : floats.Float) (o : Connection)
      → count c (first_part k floats show time fd rate o) ≡ 4 * count c (codes ",")
  count-first_part time fd rate o =
      rw
        (
          count-field c time _ small,
          count-field c fd _ small,
          count-field c (get_recv_bytes true o) _ small,
          count-append c (show rate) (codes ","),
          plain rate,
        )
        (omega arith)

  count-second_part :
      (received : ℕ) (rate : floats.Float) (o : Connection)
      → count c (second_part k floats show received rate o) ≡ 3 * count c (codes ",")
  count-second_part received rate o =
      rw
        (
          count-field c received _ small,
          count-field c (get_send_bytes true o) _ small,
          count-append c (show rate) (codes ","),
          plain rate,
        )
        (omega arith)

  count-last_part : (sent : ℕ) → count c (last_part k floats show sent) ≡ count c newline
  count-last_part sent =
      count-append c (decimal sent) newline ∙ omega (arith, count-decimal c sent small)

  count-broken :
      (time fd received : ℕ) (rate rate' : floats.Float) (o : Connection)
      → count c
          (first_part k floats show time fd rate o ++ second_part k floats show received rate' o)
        ≡ 7 * count c (codes ",")
  count-broken time fd received rate rate' o =
      rw
        (
          count-append c (first_part k floats show time fd rate o)
              (second_part k floats show received rate' o),
          count-first_part time fd rate o,
          count-second_part received rate' o,
        )
        (omega arith)

  count-row :
      (time fd received sent : ℕ) (rate rate' : floats.Float) (o : Connection)
      → count c (
          first_part k floats show time fd rate o
          ++ (second_part k floats show received rate' o ++ last_part k floats show sent))
        ≡ 7 * count c (codes ",") + count c newline
  count-row time fd received sent rate rate' o =
      rw
        (
          count-append c (first_part k floats show time fd rate o)
              (second_part k floats show received rate' o ++ last_part k floats show sent),
          count-append c (second_part k floats show received rate' o)
              (last_part k floats show sent),
          count-first_part time fd rate o,
          count-second_part received rate' o,
          count-last_part sent,
        )
        (omega arith)

module _ {SA : Type 0} (k : Kernel SA) (floats : Floats) (show : floats.Float → Text) where
  -- The texts of the rates have neither a comma nor a line end.
  abbrev pub IsPlain : Type 0
  IsPlain = (x : floats.Float) → (count comma (show x) ≡ 0) × (count 10 (show x) ≡ 0)

  -- A whole row, or one that is broken off, behind the file.
  abbrev pub IsRow : Text → Outcome (Unit {0}) × Sheet k floats show → Type 0
  IsRow file (done u, s) =
      (row : Text) × (s.file ≡ file ++ row)
      × (count comma row ≡ count comma heading)
      × (count 10 row ≡ count 10 heading)
  IsRow file (throws e, s) =
      (row : Text) × (s.file ≡ file ++ row) × (4 ≤ count comma row) × (count 10 row ≡ 0)
  IsRow file (fault x, s) = ⊥

  module _ (plain : IsPlain) (time fd : ℕ) (recv_rate send_rate : floats.Float)
      (o : Connection) where
    abbrev front : Text
    front = first_part k floats show time fd recv_rate o

    abbrev middle : ℕ → Text
    middle received = second_part k floats show received send_rate o

    comma_free : (x : floats.Float) → count comma (show x) ≡ 0
    comma_free x = (plain x).0

    line_free : (x : floats.Float) → count 10 (show x) ≡ 0
    line_free x = (plain x).1

    last_answer :
        (file : Text) (received : ℕ) (s : Sheet k floats show) (a : Answer ℕ × k.World)
        → s.file ≡ (file ++ front) ++ middle received
        → IsRow file (
            go_on
              (lift_host k floats show s (lift_world k s.host (or_throw k.strerror a)))
              (λ sent. write k floats show (last_part k floats show sent)))
    unfolding heading
    last_answer file received s (ok sent, w) e = (
      front ++ (middle received ++ last_part k floats show sent),
      ap (λ t. t ++ last_part k floats show sent) e
          ∙ (append_assoc (file ++ front) (middle received) (last_part k floats show sent)
              ∙ append_assoc file front (middle received ++ last_part k floats show sent)),
      count-row k floats show comma (omega arith) comma_free time fd received sent recv_rate
          send_rate o,
      count-row k floats show 10 (omega arith) line_free time fd received sent recv_rate send_rate
          o,
    )
    last_answer file received s (failed n, w) e = (
      front ++ middle received,
      e ∙ append_assoc file front (middle received),
      omega (
        arith,
        count-broken k floats show comma (omega arith) comma_free time fd received recv_rate
            send_rate o,
      ),
      count-broken k floats show 10 (omega arith) line_free time fd received recv_rate send_rate o,
    )

    rest-IsRow :
        (file : Text) (received : ℕ) (s : Sheet k floats show)
        → s.file ≡ file ++ front
        → IsRow file (write_rest k floats show send_rate o received s)
    unfolding write_rest send_buffer_size io_ctl
    rest-IsRow file received s e =
        last_answer file received (record s { file = s.file ++ middle received })
          (k.ioctl o.fd tiocoutq s.host.world) (ap (λ t. t ++ middle received) e)

    first_answer :
        (file : Text) (s : Sheet k floats show) (a : Answer ℕ × k.World)
        → s.file ≡ file ++ front
        → IsRow file (
            go_on
              (lift_host k floats show s (lift_world k s.host (or_throw k.strerror a)))
              (write_rest k floats show send_rate o))
    first_answer file s (ok received, w) e =
        rest-IsRow file received (record s { host = record s.host { world = w } }) e
    first_answer file s (failed n, w) e = (
      front,
      e,
      omega (
        arith,
        count-first_part k floats show comma (omega arith) comma_free time fd recv_rate o,
      ),
      count-first_part k floats show 10 (omega arith) line_free time fd recv_rate o,
    )

    fields-IsRow :
        (s : Sheet k floats show)
        → IsRow s.file (write_fields k floats show time fd recv_rate send_rate o s)
    unfolding write_fields recv_buffer_size io_ctl
    fields-IsRow s =
        first_answer s.file (record s { file = s.file ++ front })
          (k.ioctl o.fd fionread s.host.world) refl

  -- Where the texts of the rates have neither a comma nor a line end, a row that the metrics write
  -- for a connection has as many commas as the heading and ends the line; where a buffer size
  -- cannot be read, the row is broken off behind four commas or more, without a line end.
  pub write_row-IsRow :
      (time now fd self : ℕ) (s : Sheet k floats show)
      → IsPlain
      → IsRow s.file (write_row k floats show time now (fd, self) s)
  unfolding write_row
  write_row-IsRow time now fd self s plain =
      fields-IsRow plain time fd _ _ _ (record s { objects = _ })
