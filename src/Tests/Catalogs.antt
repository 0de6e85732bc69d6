-- ===== src/Tests/Catalogs.antt =====
-- A catalog of two chats.
use chemistry.Prelude.{pos, none, some, [], ◌∷◌, arith, eq_iff, string_eq}
use chemistry.Catalog.{TextEngine, ChatCatalogState, placeholder, first_prompt}
use chemistry.Catalog.Distinct.{CatalogIsValid}
use chemistry.Runtime.Storage.{StorageFaults}
use chemistry.Catalog.Object.{
  StoredCatalog, handle_create_chat, handle_touch_chat, handle_list_chats,
}
use chemistry.Catalog.Object.Valid.{StoredIsValid, handlers-StoredIsValid}

-- Texts without spaces at their ends, all of them short, in no order.
abbrev engine : TextEngine
engine = record {
  trim = λ text. text;
  collapse_spaces = λ text. text;
  trim_end = λ text. text;
  units = λ text. 5;
  slice = λ text n. text;
  last_space = λ text. none;
  locale_compare = λ left right. pos 0;
}

abbrev catalog : ChatCatalogState
catalog = record {
  version = 2;
  chats =
      record {
        session_id = "a";
        title = "Moles";
        title_status = first_prompt;
        created_at = 3;
        updated_at = 10;
      }
      ∷ record {
        session_id = "b";
        title = "New chat";
        title_status = placeholder;
        created_at = 5;
        updated_at = 5;
      }
      ∷ [];
}

catalog-IsValid : CatalogIsValid catalog
catalog-IsValid = record {
  fits = omega arith;
  distinct = (((λ same. ground (arith, eq_iff "b" "a")), tt), (tt, tt));
  latest_first = ((omega arith, tt), (tt, tt));
}

-- The list is stored, and its storage answers.
abbrev faults : StorageFaults
faults = record { on_get = none; on_put = none; on_transaction = none }

stored-IsValid : StoredIsValid (some (StoredCatalog.current catalog))
unfolding StoredIsValid
stored-IsValid = catalog-IsValid

handlers-StoredIsValid_example :
    StoredIsValid (handle_create_chat engine faults "c" 20 (some (StoredCatalog.current catalog))).1
    × StoredIsValid
        (handle_touch_chat engine faults "c" "Bonds" 20 (some (StoredCatalog.current catalog))).1
    × StoredIsValid (handle_list_chats engine faults (some (StoredCatalog.current catalog))).1
handlers-StoredIsValid_example =
    handlers-StoredIsValid engine faults "c" "Bonds" 20 (some (StoredCatalog.current catalog))
      stored-IsValid
