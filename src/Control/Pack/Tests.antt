-- ===== src/Control/Pack/Tests.antt =====
-- The theorems on what is packed, at concrete inputs.
use se_scope_target.Prelude.{ℕ, ◌<◌, ◌↔◌}
use se_scope_target.SeLib.Models.{list_core, list_create, list_stream}
use se_scope_target.Core.Tests.{full_scope}
use se_scope_target.Control.Pack.{pack_data}
use se_scope_target.Control.Pack.Channels.{Packs, IsReady, Packs-pack_data}

Packs-pack_data_example :
    Packs (pack_data {V = ℕ} list_core (list_stream {A = ℕ}) full_scope) 0 (list_create 2)
    ↔ ((0 < 1) × IsReady list_core full_scope 0 (list_create 2))
Packs-pack_data_example = Packs-pack_data ℕ list_core list_stream full_scope 0 (list_create 2)
