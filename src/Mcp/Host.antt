-- ===== src/Mcp/Host.antt =====
-- What the MCP server of crates/memoryd/src/mcp.rs is run with, and the rows that the queries of the
-- store give it, of crates/memoryd-core/src/store.rs.
use memoryd.Prelude.{ℕ, String, Option, List, Result}
use memoryd.Prelude.Int.{ℤ}
use memoryd.Json.{Codec}
use memoryd.Redact.Inline.{Engine}
use memoryd.Store.Tables.{Tables, StoreError}
use memoryd.Http.Body.{RecallArgs}
use memoryd.Http.Serve.{RecallResult}

pub record TableStats : Type 0 where
  pub table : String
  pub rows : ℕ

-- Floats are kept as their bits.
pub record MemoryNeighbor : Type 0 where
  pub memory_id : String
  pub kind : String
  pub content : String
  pub link_type : String
  pub link_strength : ℕ
  pub last_reinforced_at : ℤ
  pub lifecycle_state : String

pub record MemoryNeighborhood : Type 0 where
  pub memory_id : String
  pub kind : String
  pub content : String
  pub neighbors : List MemoryNeighbor

pub record ProfileFact : Type 0 where
  pub fact_key : String
  pub fact_value : String
  pub confidence : ℕ

pub record CentralMemory : Type 0 where
  pub memory_id : String
  pub kind : String
  pub content : String
  pub centrality : ℕ

-- What the server is run with: the queries that it asks of the store, and the build's version.
pub record Host : Type 1 where
  pub codec : Codec
  pub engine : Engine
  pub version : String
  pub queue_depth_max : ℕ
  pub recall : RecallArgs → Tables → RecallResult
  pub table_stats : Tables → Result StoreError (List TableStats)
  pub memory_neighbors : String → ℕ → Tables → Result StoreError (Option MemoryNeighborhood)
  pub active_profile_facts : ℕ → Tables → Result StoreError (List ProfileFact)
  pub top_central_memories : ℕ → Tables → Result StoreError (List CentralMemory)
  pub distilled_sessions : ℕ → Tables → Result StoreError (List String)
  pub distilled_session : String → Tables → Result StoreError (Option String)
