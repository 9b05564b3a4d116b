-- ===== src/Metrics.antt =====
-- src/metrics/Metrics.cpp: the rows of metrics.csv.
pub mod Rows
use multipath_proxy.Prelude.{ℕ, true, List, [], ◌∷◌, ◌++◌, ◌==◌, if◌then◌else◌}
use multipath_proxy.Outcome.{Outcome, done, throws, fault}
use multipath_proxy.Text.{Text, codes, decimal}
use multipath_proxy.Action.{Action, pure, ◌>>=◌, ◌>>◌}
use multipath_proxy.Net.Socket.{Kernel}
use multipath_proxy.Net.Connection.{
  Connection, Host, Floats, recv_data_rate, send_data_rate, get_recv_bytes, get_send_bytes,
  recv_buffer_size, send_buffer_size,
}

-- std::endl
abbrev pub newline : Text
newline = 10 ∷ []

-- The first line of the file.
unfoldable pub heading : Text
heading =
    codes
      "timestamp,fd,recvBytes,recvDataRate,recvBufferFillLevel,sendBytes,sendDataRate,sendBufferFillLevel"
    ++ newline

unfoldable pub to_string : Text
to_string = codes "Metrics[]"

module _ {SA : Type 0} (k : Kernel SA) (floats : Floats) (show : floats.Float → Text) where
  -- The system and the connection manager, the connections by address, and what was written.
  pub record Sheet : Type 0 where
    pub host : Host k
    pub objects : ℕ → Connection
    pub file : Text

  -- *file_ << text
  abbrev pub write : Text → Action Sheet (Unit {0})
  write text s = (done tt, record s { file = s.file ++ text })

  abbrev pub lift_host : {A : Type 0} → Sheet → Outcome A × Host k → Outcome A × Sheet
  lift_host s (r, h) = (r, record s { host = h })

  abbrev pub on_host : {A : Type 0} → Action (Host k) A → Action Sheet A
  on_host m s = lift_host s (m s.host)

  -- The rates, which the connection computes since it was last asked.
  abbrev pub update_rates : ℕ → Connection → floats.Float × floats.Float × Connection
  update_rates now c =
      let (recv_rate, c1) = recv_data_rate floats true now c in
      let (send_rate, c2) = send_data_rate floats true now c1 in (recv_rate, send_rate, c2)

  abbrev pub store_object : ℕ → Connection → Action Sheet (Unit {0})
  store_object self c s =
      (done tt, record s { objects = λ i. if i == self then c else s.objects i })

  -- What is written up to the first buffer size, up to the second, and behind it.
  abbrev pub first_part : ℕ → ℕ → floats.Float → Connection → Text
  first_part time fd rate c =
      decimal time
      ++ (codes ","
          ++ (decimal fd
              ++ (codes ","
                  ++ (decimal (get_recv_bytes true c) ++ (codes "," ++ (show rate ++ codes ","))))))

  abbrev pub second_part : ℕ → floats.Float → Connection → Text
  second_part received rate c =
      decimal received
      ++ (codes "," ++ (decimal (get_send_bytes true c) ++ (codes "," ++ (show rate ++ codes ","))))

  abbrev pub last_part : ℕ → Text
  last_part sent = decimal sent ++ newline

  -- The row. A buffer size that cannot be read throws, and leaves the row as it is.
  unfoldable pub write_rest : floats.Float → Connection → ℕ → Action Sheet (Unit {0})
  write_rest send_rate c received = do
    write (second_part received send_rate c)
    sent ← on_host (send_buffer_size k c)
    write (last_part sent)

  unfoldable pub write_fields :
      ℕ → ℕ → floats.Float → floats.Float → Connection → Action Sheet (Unit {0})
  unfolding write_rest
  write_fields time fd recv_rate send_rate c = do
    write (first_part time fd recv_rate c)
    received ← on_host (recv_buffer_size k c)
    write_rest send_rate c received

  -- A round of the loop, for an entry of the connection manager.
  unfoldable pub write_row : ℕ → ℕ → ℕ × ℕ → Action Sheet (Unit {0})
  unfolding write_fields
  write_row time now (fd, self) s =
      let (recv_rate, send_rate, c) = update_rates now (s.objects self) in
      (store_object self c >> write_fields time fd recv_rate send_rate c) s

  -- WriteMetricsToDisk, in front of the sleep.
  unfoldable pub write_rows : ℕ → ℕ → List (ℕ × ℕ) → Action Sheet (Unit {0})
  unfolding write_row
  write_rows time now [] = pure tt
  write_rows time now (e ∷ es) = write_row time now e >> write_rows time now es
