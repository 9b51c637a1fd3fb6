-- ===== src/Examples/Data.antt =====
-- The tenants, paths and keys of the examples.
use kubernix.Prelude.{Bytes, codes, refl, arith}
use kubernix.TenantId.{TenantId, all_wire_chars}
use kubernix.TenantId.Safe.{IsWireId}
use kubernix.StorePath.{StorePath}
use kubernix.Keys.{ObjectKey}

abbrev pub acme : TenantId
acme = record { as_str = codes "acme" }

abbrev pub beta : TenantId
beta = record { as_str = codes "beta-2" }

pub acme-IsWireId : IsWireId acme
unfolding all_wire_chars
acme-IsWireId = record { chars = refl; nonempty = omega arith; short = omega arith }

pub beta-IsWireId : IsWireId beta
unfolding all_wire_chars
beta-IsWireId = record { chars = refl; nonempty = omega arith; short = omega arith }

abbrev pub hash_text : Bytes
hash_text = codes "0123456789abcdfghijklmnpqrsvwxyz"

abbrev pub hello : StorePath
hello = record { as_str = codes "0123456789abcdfghijklmnpqrsvwxyz-hello" }

abbrev pub hello_drv : StorePath
hello_drv = record { as_str = codes "zyxwvsrqpnmlkjihgfdcba9876543210-hello.drv" }

abbrev pub acme_nar : ObjectKey
acme_nar = record { as_str = codes "acme/nar/0123456789abcdfghijklmnpqrsvwxyz.nar.zst" }

abbrev pub acme_log : ObjectKey
acme_log = record { as_str = codes "acme/log/zyxwvsrqpnmlkjihgfdcba9876543210" }

abbrev pub shared_nar : ObjectKey
shared_nar = record { as_str = codes "nar/0123456789abcdfghijklmnpqrsvwxyz.nar.zst" }
