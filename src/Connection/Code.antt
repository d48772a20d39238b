-- ===== src/Connection/Code.antt =====
-- What the QR code of the display leads to.
use openathan.Base.{
  ℕ, ◌≡◌, refl, sym, subst, [], true, false, Option, some, List, Option-cases, inl, inr, arith,
}
use openathan.Device.Wifi.{all}
use openathan.Connection.{
  ConnectionInfo, ConnectionFrame, connection_frame, station_frame, encode_qr, host_char,
  url_payload, valid_ipv4,
}

module _ (encode : List ℕ → Option (List ℕ)) where
  encode_qr-valid :
      (out : ConnectionFrame) (payload : List ℕ) (size : ℕ)
      → out.qr_valid ≡ false
      → (encode_qr encode out payload size).qr_valid ≡ true
      → encode payload ≡ some (encode_qr encode out payload size).qr
  unfolding encode_qr
  encode_qr-valid out payload size off on = elim (Option-cases (encode payload)) [
    | inl e ↦ ground (arith, e, off, on)
    | inr (code, e) ↦ ground (arith, e, off, on)
  ]

  station_frame-valid :
      (info : ConnectionInfo) (out : ConnectionFrame)
      → out.qr_valid ≡ false
      → (station_frame encode info out).qr_valid ≡ true
      → (info.connected ≡ true)
        × (all host_char info.hostname ≡ true)
        × (valid_ipv4 info.ipv4 ≡ true)
        × (encode (url_payload info.hostname) ≡ some (station_frame encode info out).qr)
  unfolding station_frame
  station_frame-valid info out off on =
      let reached : ConnectionFrame = record out {
        available = true;
        hostname = info.hostname;
        ipv4 = info.ipv4;
      } in
      ground (arith, off, on, encode_qr-valid reached (url_payload info.hostname) 78 off)

  -- What the flags give.
  abbrev pub flagged : ConnectionInfo → ConnectionFrame
  flagged info = record {
    hostname = [];
    ipv4 = [];
    qr = [];
    available = false;
    connected = info.connected;
    qr_valid = false;
    setup_ssid = [];
    setup_active = false;
    setup_connecting = false;
    setup_error = info.setup_error;
  }

  station_only :
      (info : ConnectionInfo)
      → info.setup_active ≡ false
      → info.setup_connecting ≡ false
      → connection_frame encode info ≡ station_frame encode info (flagged info)
  unfolding connection_frame
  station_only info idle steady = rw (idle, steady) refl

  abbrev Leads : ConnectionInfo → ConnectionFrame → Type 0
  Leads info frame =
      (info.connected ≡ true)
      × (all host_char info.hostname ≡ true)
      × (valid_ipv4 info.ipv4 ≡ true)
      × (encode (url_payload info.hostname) ≡ some frame.qr)

  -- Without a setup in progress, a QR code is shown only on a connection with a valid address, and
  -- is the code of the page of exactly the device's host name, whose characters are all allowed.
  pub connection_frame-code :
      (info : ConnectionInfo)
      → info.setup_active ≡ false
      → info.setup_connecting ≡ false
      → (connection_frame encode info).qr_valid ≡ true
      → (info.connected ≡ true)
        × (all host_char info.hostname ≡ true)
        × (valid_ipv4 info.ipv4 ≡ true)
        × (encode (url_payload info.hostname) ≡ some (connection_frame encode info).qr)
  connection_frame-code info idle steady on =
      let same = station_only info idle steady in
      subst (Leads info) (sym same) (
        station_frame-valid info (flagged info) refl
          (subst (λ (f : ConnectionFrame). f.qr_valid ≡ true) same on))
