-- ===== src/Systemio/Examples.antt =====
-- The theorems on src/modules/systemio at a bus with two slaves, a pin and an analog input.
use testing.Base.{
  ℕ, ◌≡◌, refl, none, some, List, [], ◌∷◌, ◌+◌, ◌==◌, arith, s_ok, e_busy, e_bad_args,
  if◌then◌else◌,
}
use testing.ArtikList.{Entry, null}
use testing.ArtikList.Abstract.{find, remove}
use testing.Systemio.Nodes.{by_handle, entry_at, modify}
use testing.Systemio.Registry.{Driver, State, requested, request_node, on_node, release_node}
use testing.Systemio.Registry.Valid.{IsValid}
use testing.Systemio.Registry.Laws.{request_refused, request-on_node, request_twice}
use testing.Systemio.Registry.Release.{release-on_node}
use testing.Systemio.Registry.Again.{IsEuclidean, release-request}
use testing.Systemio.I2c
use testing.Systemio.I2c.{I2cConfig, I2cDriver}
use testing.Systemio.I2c.Calls

-- A driver that counts its calls, refuses bus 9 and leaves configurations alone.
abbrev counted {ℓ} : {R : Type ℓ} → R → I2cConfig → ℕ → R × I2cConfig × ℕ
counted r c w = (r, c, w + 1)

abbrev bus : Driver I2cConfig ℕ
bus = record {
  os_request = λ c w. (if c.id == 9 then e_bad_args else s_ok, c, w + 1);
  os_release = counted s_ok;
}

abbrev os : I2cDriver ℕ
os = record {
  base = bus;
  os_read = λ len. counted (s_ok, len ∷ []);
  os_write = λ buf. counted s_ok;
  os_read_register = λ reg len. counted (s_ok, reg ∷ []);
  os_write_register = λ reg buf. counted s_ok;
}

abbrev slave : ℕ → ℕ → I2cConfig
slave id address = record { id = id; frequency = 100; wordsize = 1; address = address }

abbrev node : ℕ → I2cConfig → Entry I2cConfig
node m c = record { clear = null; handle = m; size_data = 16; content = 0; payload = c }

abbrev two : State I2cConfig ℕ
two = record { nodes = (16, node 16 (slave 1 80)) ∷ (32, node 32 (slave 1 81)) ∷ []; world = 2 }

two-IsValid : IsValid I2c.check_exist two
two-IsValid = record {
  handled = (omega arith, refl, (omega arith, tt), (omega arith, refl, tt, tt));
  exclusive = ((refl, tt), (tt, tt));
}

request_refused_example :
    (request_node I2c.check_exist (λ e. e) bus (slave 0 0) 56 48 (slave 9 80) two).1.nodes
    ≡ two.nodes
unfolding request_node find remove
request_refused_example =
    request_refused I2c.check_exist (λ e. e) bus (slave 0 0) 56 48 (slave 9 80) two (omega arith)
      refl

request-on_node_example :
    (on_node e_bad_args
      (os.os_write [])
      48
      (request_node I2c.check_exist (λ e. e) bus (slave 0 0) 56 48 (slave 2 80) two).1).0
    ≡ s_ok
unfolding request_node find
request-on_node_example =
    request-on_node I2c.check_exist (λ e. e) bus (slave 0 0) 56 48 48 (slave 2 80) two e_bad_args
      (os.os_write []) (omega arith) two-IsValid refl

request_twice_example :
    let s = (request_node I2c.check_exist (λ e. e) bus (slave 0 0) 56 48 (slave 2 80) two).1 in
    request_node I2c.check_exist (λ e. e) bus (slave 0 0) 56 64 (slave 2 80) s
    ≡ (requested e_busy none (slave 2 80), s)
unfolding request_node find
request_twice_example =
    request_twice I2c.check_exist (λ e. e) bus (slave 0 0) 56 48 48 64 (slave 2 80) (slave 2 80) two
      (omega arith) two-IsValid refl refl

release-on_node_example :
    let s = (release_node bus 16 two).1 in
    (on_node e_bad_args (os.os_write []) 16 s ≡ (e_bad_args, s))
    × (release_node bus 16 s ≡ (e_bad_args, s))
unfolding release_node on_node by_handle find entry_at
release-on_node_example =
    release-on_node I2c.check_exist bus e_bad_args (os.os_write []) 16 two two-IsValid refl

same_slave-IsEuclidean : IsEuclidean I2c.check_exist
same_slave-IsEuclidean x y z p q = ground arith

release-request_example :
    let s = (release_node bus 16 two).1 in
    (request_node I2c.check_exist (λ e. e) bus (slave 0 0) 56 48 (slave 1 80) s).0.handle ≡ some 48
unfolding release_node on_node by_handle find entry_at remove modify
release-request_example =
    release-request I2c.check_exist (λ e. e) bus (slave 0 0) 56 48 16 (slave 1 80)
      (node 16 (slave 1 80)) two same_slave-IsEuclidean two-IsValid refl refl refl (omega arith)
      (omega arith) refl

os-KeepsSlaves : Calls.KeepsSlaves os
os-KeepsSlaves = record {
  request_keeps = λ c w. (refl, refl);
  release_keeps = λ c w. (refl, refl);
  read_keeps = λ len c w. (refl, refl);
  write_keeps = λ buf c w. (refl, refl);
  read_register_keeps = λ reg len c w. (refl, refl);
  write_register_keeps = λ reg buf c w. (refl, refl);
}

abbrev session : List Calls.Call
session =
    Calls.requests (slave 0 0) 56 48 (slave 2 80)
    ∷ Calls.writes 48 (7 ∷ [])
    ∷ Calls.releases 16
    ∷ []

two-HasSlaves : Calls.HasSlaves os two
two-HasSlaves = record {
  handled = two-IsValid.handled;
  apart = (((λ h. omega arith), tt), (tt, tt));
}

i2c_run-HasSlaves_example :
    Calls.HasSlaves os (Calls.run os two session)
    × Calls.Arbitrated os (slave 0 0) 56 64 (slave 2 80) (Calls.run os two session)
i2c_run-HasSlaves_example =
    Calls.i2c_run-HasSlaves os two session (slave 0 0) 56 64 (slave 2 80) os-KeepsSlaves
      (omega arith, (tt, (tt, tt))) two-HasSlaves
