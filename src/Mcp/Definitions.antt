-- ===== src/Mcp/Definitions.antt =====
-- `initialize_result` and `tool_definitions` of crates/memoryd/src/mcp.rs.
use memoryd.Prelude.{String, false, [], ◌∷◌}
use memoryd.Json.{Value, string, boolean}
use memoryd.Mcp.Messages.{obj, arr, nat}

-- `version` is that of the build.
abbrev pub initialize_result : String → Value
initialize_result version = obj (
    ("capabilities", obj (("resources", obj []) ∷ ("tools", obj []) ∷ []))
    ∷ (
      "instructions",
      string
          "Local memory store and owner persona. Call memory_profile at session start and adopt its facts, preferences, and decision heuristics as the owner's standing positions. Use memory_recall before answering; memory_remember to persist durable facts; memory_graph to walk associations from a memory_id.",
    )
    ∷ ("protocolVersion", string "2024-11-05")
    ∷ ("serverInfo", obj (("name", string "memoryd") ∷ ("version", string version) ∷ []))
    ∷ [])

-- The tools, one by one, and the page of all of them.
abbrev memory_remember_tool : Value
memory_remember_tool = obj (
    (
      "description",
      string
          "Persist a durable fact or note into the local memory store. The capture is acknowledged immediately and consolidated into a recallable memory on the next dream pass.",
    )
    ∷ (
      "inputSchema",
      obj (
          (
            "properties",
            obj (
                (
                  "content",
                  obj (
                      ("description", string "Text to remember.") ∷ ("type", string "string") ∷ []),
                )
                ∷ ("kind", obj (("default", string "note") ∷ ("type", string "string") ∷ []))
                ∷ ("session_id", obj (("default", string "mcp") ∷ ("type", string "string") ∷ []))
                ∷ ("source", obj (("default", string "mcp") ∷ ("type", string "string") ∷ []))
                ∷ (
                  "tags",
                  obj (
                      ("items", obj (("type", string "string") ∷ []))
                      ∷ ("type", string "array")
                      ∷ []),
                )
                ∷ []),
          )
          ∷ ("required", arr ((string "content") ∷ []))
          ∷ ("type", string "object")
          ∷ []),
    )
    ∷ ("name", string "memory_remember")
    ∷ [])

abbrev memory_recall_tool : Value
memory_recall_tool = obj (
    (
      "description",
      string
          "Search the memory store (durable memories with one-hop graph expansion, falling back to raw events). Returns ranked hits.",
    )
    ∷ (
      "inputSchema",
      obj (
          (
            "properties",
            obj (
                (
                  "hops",
                  obj (
                      ("default", nat 1)
                      ∷ ("enum", arr ((nat 0) ∷ (nat 1) ∷ []))
                      ∷ ("type", string "integer")
                      ∷ []),
                )
                ∷ (
                  "k",
                  obj (
                      ("default", nat 5)
                      ∷ ("maximum", nat 50)
                      ∷ ("minimum", nat 1)
                      ∷ ("type", string "integer")
                      ∷ []),
                )
                ∷ (
                  "query",
                  obj (("description", string "Search text.") ∷ ("type", string "string") ∷ []),
                )
                ∷ ("semantic", obj (("default", boolean false) ∷ ("type", string "boolean") ∷ []))
                ∷ []),
          )
          ∷ ("required", arr ((string "query") ∷ []))
          ∷ ("type", string "object")
          ∷ []),
    )
    ∷ ("name", string "memory_recall")
    ∷ [])

abbrev memory_stats_tool : Value
memory_stats_tool = obj (
    ("description", string "Row counts for every memoryd table.")
    ∷ ("inputSchema", obj (("properties", obj []) ∷ ("type", string "object") ∷ []))
    ∷ ("name", string "memory_stats")
    ∷ [])

abbrev memory_profile_tool : Value
memory_profile_tool = obj (
    (
      "description",
      string
          "The owner's approved persona kernel: profile facts, preferences, and decision heuristics (all human-approved), plus the high-centrality themes their sessions return to. Load at session start and adopt as the owner's standing positions.",
    )
    ∷ (
      "inputSchema",
      obj (
          (
            "properties",
            obj (
                (
                  "limit",
                  obj (
                      ("default", nat 50)
                      ∷ ("maximum", nat 100)
                      ∷ ("minimum", nat 1)
                      ∷ ("type", string "integer")
                      ∷ []),
                )
                ∷ []),
          )
          ∷ ("type", string "object")
          ∷ []),
    )
    ∷ ("name", string "memory_profile")
    ∷ [])

abbrev memory_graph_tool : Value
memory_graph_tool = obj (
    (
      "description",
      string
          "Walk the association graph one hop out from a memory_id returned by memory_recall. Neighbors come back strongest link first, with contents truncated to short snippets.",
    )
    ∷ (
      "inputSchema",
      obj (
          (
            "properties",
            obj (
                (
                  "limit",
                  obj (
                      ("default", nat 16)
                      ∷ ("maximum", nat 50)
                      ∷ ("minimum", nat 1)
                      ∷ ("type", string "integer")
                      ∷ []),
                )
                ∷ ("memory_id", obj (("type", string "string") ∷ []))
                ∷ []),
          )
          ∷ ("required", arr ((string "memory_id") ∷ []))
          ∷ ("type", string "object")
          ∷ []),
    )
    ∷ ("name", string "memory_graph")
    ∷ [])

abbrev pub tool_definitions : Value
tool_definitions = arr (
    memory_remember_tool ∷ memory_recall_tool ∷ memory_stats_tool ∷ memory_profile_tool
    ∷ memory_graph_tool ∷ [])
