-- ===== src/Ethernet.antt =====
-- src/transport/Client: the Ethernet interface with a static IPv4 configuration. The driver of the
-- Arduino core (`ETH`, `SPI`) is a parameter.
use esp32_control_logix.Base.{ℕ, Bool, true, false, not, ◌&&◌, if◌then◌else◌}
use esp32_control_logix.Base.Int.{ℤ}
use esp32_control_logix.Status.{Status, pending, ok, not_ready, error}
use esp32_control_logix.Address.{Address}

pub record Config : Type 0 where
  pub phy_type : ℕ
  pub ip : Address
  pub gateway : Address
  pub subnet : Address
  pub dns : Address
  pub sck : ℤ
  pub miso : ℤ
  pub mosi : ℤ
  pub cs : ℤ
  pub irq : ℤ
  pub rst : ℤ
  pub phy_addr : ℤ
  pub rmii : Bool
  pub mdc : ℤ
  pub mdio : ℤ
  pub power : ℤ
  pub clk_mode : ℤ

-- The driver, over a state `P`.
pub record Driver (P : Type 0) : Type 0 where
  -- `CONFIG_ETH_USE_ESP32_EMAC`.
  pub has_emac : Bool
  -- `ETH.begin` for an RMII PHY, and `SPI.begin` and `ETH.begin` for an SPI PHY.
  pub begin_rmii : P → Config → Bool × P
  pub spi_begin : P → ℤ → ℤ → ℤ → P
  pub begin_spi : P → Config → Bool × P
  -- `ETH.config(ip, gateway, subnet, dns)`.
  pub config : P → Address → Address → Address → Address → Bool × P
  pub end : P → P
  pub link_up : P → Bool × P
  pub has_ip : P → Bool × P
  pub local_ip : P → Address
  pub subnet_mask : P → Address

pub record Ethernet : Type 0 where
  pub cfg : Config
  pub started : Bool
  pub ready : Bool
  pub failed : Bool

abbrev pub no_address : Address
no_address = record { o0 = 0; o1 = 0; o2 = 0; o3 = 0 }

module _ {P : Type 0} (d : Driver P) where
  -- The destructor.
  pub destroy : Ethernet → P → Ethernet × P
  destroy e w = (record e { started = false; ready = false }, if e.started then d.end w else w)

  -- The driver is started for the PHY of the configuration.
  pub start_phy : P → Config → Bool × P
  start_phy w cfg =
      let w' = d.spi_begin w cfg.sck cfg.miso cfg.mosi in
      if d.has_emac && cfg.rmii then d.begin_rmii w cfg else d.begin_spi w' cfg

  pub begin : Ethernet → P → Config → Status × Ethernet × P
  unfolding start_phy
  begin e w cfg =
      let w1 = if e.started then d.end w else w in
      let e' : Ethernet = record { cfg = cfg; started = false; ready = false; failed = false } in
      let (up, w2) = start_phy w1 cfg in
      let (configured, w3) = d.config w2 cfg.ip cfg.gateway cfg.subnet cfg.dns in
      if not up
      then (error, record e' { failed = true }, w2)
      else if not configured
      then (error, record e' { failed = true }, w3)
      else (pending, record e' { started = true }, w3)

  unfoldable pub poll : Ethernet → P → Status × Ethernet × P
  poll e w =
      let (up, w1) = d.link_up w in
      let (has, w2) = d.has_ip w1 in
      if e.failed
      then (error, e, w)
      else if not e.started
      then (not_ready, e, w)
      else if e.ready
      then (ok, e, w)
      else if not up
      then (pending, e, w1)
      else if has
      then (ok, record e { ready = true }, w2)
      else (pending, e, w2)

  abbrev pub local_ip : Ethernet → P → Address
  local_ip e w = if e.ready then d.local_ip w else no_address

  abbrev pub subnet_mask : Ethernet → P → Address
  subnet_mask e w = if e.ready then d.subnet_mask w else no_address
