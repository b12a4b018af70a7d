-- ===== src/Decoders/Protocols.antt =====
-- libsurfer/src/decoders/mod.rs: the protocols, with the role tables of spi.rs, i2c.rs and uart.rs.
use kahuna.Common.{Bool, true, false, List, [], ◌∷◌}
use kahuna.Decoders.{Text, codes}

pub data Protocol : Type 0 where
  spi i2c uart : Protocol

pub record Role : Type 0 where
  pub name : Text
  pub required : Bool
  pub aliases : List Text

abbrev pub spi_roles : List Role
spi_roles =
    record {
      name = codes "SCLK";
      required = true;
      aliases = codes "sclk" ∷ codes "sck" ∷ codes "scl" ∷ codes "clk" ∷ [];
    }
    ∷ record {
      name = codes "MOSI";
      required = false;
      aliases = codes "mosi" ∷ codes "copi" ∷ codes "sdo" ∷ codes "din" ∷ codes "tx" ∷ [];
    }
    ∷ record {
      name = codes "MISO";
      required = false;
      aliases = codes "miso" ∷ codes "cipo" ∷ codes "sdi" ∷ codes "dout" ∷ codes "rx" ∷ [];
    }
    ∷ record {
      name = codes "CS";
      required = false;
      aliases =
          codes "cs_n"
          ∷ codes "csn"
          ∷ codes "ss_n"
          ∷ codes "ssn"
          ∷ codes "nss"
          ∷ codes "cs"
          ∷ codes "ss"
          ∷ [];
    }
    ∷ []

abbrev pub i2c_roles : List Role
i2c_roles =
    record {
      name = codes "SCL";
      required = true;
      aliases = codes "scl" ∷ codes "i2c_clk" ∷ codes "sclk" ∷ codes "clk" ∷ [];
    }
    ∷ record {
      name = codes "SDA";
      required = true;
      aliases = codes "sda" ∷ codes "i2c_data" ∷ codes "data" ∷ [];
    }
    ∷ []

abbrev pub uart_roles : List Role
uart_roles =
    record {
      name = codes "Line";
      required = true;
      aliases =
          codes "uart"
          ∷ codes "tx"
          ∷ codes "rx"
          ∷ codes "txd"
          ∷ codes "rxd"
          ∷ codes "serial"
          ∷ codes "sout"
          ∷ codes "sin"
          ∷ [];
    }
    ∷ []

unfoldable pub roles : Protocol → List Role
roles spi = spi_roles
roles i2c = i2c_roles
roles uart = uart_roles
