-- ===== src/Composition/Core.antt =====
-- What the composition scheduler reads of Core's values (@flowdoc/vnext-core), whose parsers are
-- parameters. Of each value the model has the fields that the scheduler reads, and one text for the
-- rest. A result of a parser or of a contract is none where it is "blocked": issues are left out.
use flowdoc_vnext_backend.Common.{ℕ, String, ◌≡◌, Bool, Option, some, List}

pub record Manifest : Type 0 where
  pub document_id : String
  pub fingerprint : String
  pub resolved_projection_fingerprint : String
  pub carried : String

pub record ActiveRoot : Type 0 where
  pub item_index : ℕ
  pub root_node_id : String
  pub family : String
  pub state_fingerprint : String

pub record ClosedPrefix : Type 0 where
  pub page_count : ℕ
  pub placement_count : ℕ
  pub heading_count : ℕ
  pub fingerprint : Option String

pub record CumulativeWork : Type 0 where
  pub body_items_completed : ℕ
  pub family_pages_consumed : ℕ
  pub page_advances : ℕ

pub record Cursor : Type 0 where
  pub document_id : String
  pub manifest_fingerprint : String
  pub complete : Bool
  pub active_root : Option ActiveRoot
  pub closed_prefix : ClosedPrefix
  pub cumulative_work : CumulativeWork
  pub fingerprint : String
  pub carried : String

pub record OpenPage : Type 0 where
  pub carried : String

pub record Demand : Type 0 where
  pub document_id : String
  pub manifest_fingerprint : String
  pub item_index : ℕ
  pub section_id : String
  pub zone_id : String
  pub root_node_id : String
  pub root_node_type : String
  pub family : String
  pub state_fingerprint : String
  pub fingerprint : String
  pub carried : String

-- A closed page; of each of its placements, whether it has a heading.
pub record ClosedPage : Type 0 where
  pub page_index : ℕ
  pub page_number : ℕ
  pub closed_page_count_before : ℕ
  pub closed_placement_count_before : ℕ
  pub closed_heading_count_before : ℕ
  pub previous_prefix : Option String
  pub prefix : String
  pub placements : List Bool
  pub carried : String

pub record TransitionWork : Type 0 where
  pub window_count : ℕ
  pub family_page_count : ℕ
  pub closed_page_count : ℕ
  pub placement_count : ℕ
  pub body_item_completion_count : ℕ
  pub page_advance_count : ℕ
  pub cursor_commit_count : ℕ

pub record CompositionCore : Type 0 where
  pub parse_manifest : Manifest → Option Manifest
  pub parse_state : Manifest → Cursor → Option OpenPage → Option (Cursor × Option OpenPage)
  pub parse_demand : Demand → Option Demand
  pub parse_page : ClosedPage → Option ClosedPage

-- A parser that accepts a value gives that value out.
pub record ParsesSelf (core : CompositionCore) : Type 0 where
  pub manifest_self : (m n : Manifest) → core.parse_manifest m ≡ some n → n ≡ m
  pub state_self :
      (m : Manifest) (c d : Cursor) (o p : Option OpenPage)
      → core.parse_state m c o ≡ some (d, p)
      → (d ≡ c) × (p ≡ o)
  pub demand_self : (d e : Demand) → core.parse_demand d ≡ some e → e ≡ d
  pub page_self : (p q : ClosedPage) → core.parse_page p ≡ some q → q ≡ p
