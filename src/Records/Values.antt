-- ===== src/Records/Values.antt =====
-- The values of `providerMetadata`, and `deepEqual` on them. A value is read from a request or a
-- database row, so that no object is shared between the two sides.
use master_dns.Common.{ℕ, ◌+◌, suc, Bool, true, false, ◌&&◌, String, ◌==◌, if◌then◌else◌}
use master_dns.Common.Text.{str_eq}

mutual
  pub data Value : Type 0 where
    undefined null : Value
    boolean : Bool → Value
    number : ℕ → Value
    text : String → Value
    array : Items → Value
    object : Fields → Value

  pub data Items : Type 0 where
    nil : Items
    cons : Value → Items → Items

  pub data Fields : Type 0 where
    end : Fields
    field : (key : String) → Value → Fields → Fields

abbrev pub lookup : String → Fields → Value
lookup key end = undefined
lookup key (field name value rest) =
    let later = lookup key rest in if str_eq name key then value else later

abbrev pub count_items : Items → ℕ
count_items nil = 0
count_items (cons item items) = suc (count_items items)

abbrev pub count_fields : Fields → ℕ
count_fields end = 0
count_fields (field key value rest) = suc (count_fields rest)

abbrev pub same_boolean : Bool → Bool → Bool
same_boolean true right = right
same_boolean false true = false
same_boolean false false = true

-- `String(index)`, the key of an array's item.
module _ (index_key : ℕ → String) where
  abbrev pub item_fields : ℕ → Items → Fields
  item_fields i nil = end
  item_fields i (cons item items) = field (index_key i) item (item_fields (i + 1) items)

  unfoldable mutual
    pub deep_equal : Value → Value → Bool
    deep_equal undefined undefined = true
    deep_equal null null = true
    deep_equal (boolean left) (boolean right) = same_boolean left right
    deep_equal (number left) (number right) = left == right
    deep_equal (text left) (text right) = str_eq left right
    deep_equal (array left) (array right) = equal_items left right
    deep_equal (array left) (object right) =
        (count_items left == count_fields right) && items_in 0 left right
    deep_equal (object left) (array right) =
        (count_fields left == count_items right) && fields_in left (item_fields 0 right)
    deep_equal (object left) (object right) =
        (count_fields left == count_fields right) && fields_in left right
    deep_equal _ _ = false

    -- Of one length, and equal at each index.
    pub equal_items : Items → Items → Bool
    equal_items nil nil = true
    equal_items (cons left lefts) (cons right rights) =
        deep_equal left right && equal_items lefts rights
    equal_items _ _ = false

    pub items_in : ℕ → Items → Fields → Bool
    items_in i nil right = true
    items_in i (cons left lefts) right =
        deep_equal left (lookup (index_key i) right) && items_in (i + 1) lefts right

    pub fields_in : Fields → Fields → Bool
    fields_in end right = true
    fields_in (field key left rest) right =
        deep_equal left (lookup key right) && fields_in rest right
