-- ===== src/Engine/SearchScan/State.antt =====
-- crates/osproxy-engine/src/search_scan.rs: the state of the scanner.
use opensearch_proxy.Prelude.{
  ℕ, ◌+◌, ◌%◌, ◌^◌, Bool, true, false, ◌||◌, [], ◌∷◌, ◌++◌, ◌==◌, nat_eq, list_eq, if◌then◌else◌,
}
use opensearch_proxy.Prelude.Bytes.{Bytes}

-- Numbers of 32 bits, which count the nesting.
abbrev pub deeper : ℕ → ℕ
deeper depth = (depth + 1) % 2 ^ 32

pub data Phase : Type 0 where
  seek_root obj_expect_key obj_read_key obj_expect_colon obj_expect_value skip_value : Phase
  obj_expect_comma arr_expect_elem arr_read_elem arr_expect_comma passthrough : Phase

pub data Flow : Type 0 where
  consume redo : Flow

pub record Skip : Type 0 where
  pub depth : ℕ
  pub in_str : Bool
  pub esc : Bool
  pub scalar : Bool

abbrev pub no_skip : Skip
no_skip = record { depth = 0; in_str = false; esc = false; scalar = false }

abbrev pub opens : ℕ → Bool
opens b = (b == b'{') || (b == b'[')

abbrev pub closes : ℕ → Bool
closes b = (b == b'}') || (b == b']')

abbrev pub begin_skip : ℕ → Skip
begin_skip first =
    if first == b'"'
    then record no_skip { in_str = true }
    else if opens first
    then record no_skip { depth = 1 }
    else record no_skip { scalar = true }

pub data ElemKind : Type 0 where
  unknown str struct scalar_kind : ElemKind

pub record Elem : Type 0 where
  pub buf : Bytes
  pub kind : ElemKind
  pub depth : ℕ
  pub in_str : Bool
  pub esc : Bool

abbrev pub new_elem : Elem
new_elem = record { buf = []; kind = unknown; depth = 0; in_str = false; esc = false }

pub record Scanner : Type 0 where
  pub phase : Phase
  pub level : ℕ
  pub key_is_hits : Bool
  pub key_buf : Bytes
  pub key_esc : Bool
  pub skip : Skip
  pub elem : Elem
  pub out : Bytes

abbrev pub new_scanner : Scanner
new_scanner = record {
  phase = seek_root;
  level = 0;
  key_is_hits = false;
  key_buf = [];
  key_esc = false;
  skip = no_skip;
  elem = new_elem;
  out = [];
}

abbrev pub is_ws : ℕ → Bool
is_ws b = (b == b' ') || ((b == 9) || ((b == 10) || (b == 13)))

-- `self.out.push(b)`
abbrev pub push : ℕ → Scanner → Scanner
push b s = record s { out = s.out ++ (b ∷ []) }

abbrev pub go_to : Phase → Scanner → Scanner
go_to p s = record s { phase = p }

abbrev pub to_elem : Elem → Scanner → Scanner
to_elem e s = record s { elem = e }
