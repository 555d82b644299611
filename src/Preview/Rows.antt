-- ===== src/Preview/Rows.antt =====
-- The rows of the table of links, and what a change of the table leaves of a link.
use lapdev.Base.{
  ◌≡◌, refl, true, Bool-cases, inl, inr, Option, none, some, List, arith, ◌==◌, nat_key, string_key,
  find,
}
use lapdev.Base.Int.{int_key}
use lapdev.Preview.{
  Uuid, Time, PreviewUrlAccessLevel, access_text, PreviewUrl, has_id, clash, insert_row, update_row,
  set_access_level, set_accessed,
}
use lapdev.Preview.Tables.{
  any-find, find-holds, IsValid, insert_row-IsValid, update_row-IsValid, find-update_row,
}

-- What stays of a row while its link is not deleted.
pub record IsLink (made row : PreviewUrl) : Type 0 where
  pub same_id : row.id ≡ made.id
  pub live : row.deleted_at ≡ none
  pub same_environment : row.environment_id ≡ made.environment_id
  pub same_service : row.service_id ≡ made.service_id
  pub same_name : row.name ≡ made.name
  pub same_port : row.port ≡ made.port
  pub same_protocol : row.protocol ≡ made.protocol
  pub level : PreviewUrlAccessLevel
  pub has_level : row.access_level ≡ access_text level

pub record HasLink (made : PreviewUrl) (rows : List PreviewUrl) : Type 0 where
  pub valid : IsValid rows
  pub row : PreviewUrl
  pub found : find (has_id made.id) rows ≡ some row
  pub link : IsLink made row

pub insert_row-HasLink :
    (made row : PreviewUrl) (rows : List PreviewUrl) {after : List PreviewUrl}
    → HasLink made rows
    → insert_row row rows ≡ some after
    → HasLink made after
insert_row-HasLink made row rows {after} h inserted =
    let new : find (has_id made.id) after ≡ some h.row =
      unfold insert_row in
      ground (
        arith,
        any-find (clash row) (has_id made.id) rows h.row,
        h.found,
        find-holds (has_id made.id) rows h.row,
        nat_key.same_iff row.id made.id,
        nat_key.same_iff h.row.id made.id,
        nat_key.same_iff row.id h.row.id,
      ) in
    record {
      valid = insert_row-IsValid row rows h.valid inserted;
      row = h.row;
      found = new;
      link = h.link;
    }

-- The table behind the insertion of a link.
pub inserted-HasLink :
    (row : PreviewUrl) (level : PreviewUrlAccessLevel) (rows : List PreviewUrl)
    {after : List PreviewUrl}
    → IsValid rows
    → insert_row row rows ≡ some after
    → row.deleted_at ≡ none
    → row.access_level ≡ access_text level
    → HasLink row after
inserted-HasLink row level rows {after} valid inserted live levelled = record {
  valid = insert_row-IsValid row rows valid inserted;
  row = row;
  found = unfold insert_row in ground (arith, nat_key.same_iff row.id row.id);
  link = record {
    same_id = refl;
    live = live;
    same_environment = refl;
    same_service = refl;
    same_name = refl;
    same_port = refl;
    same_protocol = refl;
    level = level;
    has_level = levelled;
  };
}

-- An update that leaves what a link consists of, at least if it is of this row.
pub update_row-HasLink :
    (made : PreviewUrl) (j : Uuid) (f : PreviewUrl → PreviewUrl) (rows : List PreviewUrl)
    {after : List PreviewUrl}
    → ((row : PreviewUrl) → (f row).id ≡ row.id)
    → ((row : PreviewUrl) → (j == made.id) ≡ true → IsLink made row → IsLink made (f row))
    → HasLink made rows
    → update_row j f rows ≡ some after
    → HasLink made after
update_row-HasLink made j f rows keeps stays h updated =
    let valid = update_row-IsValid j f rows h.valid updated in
    let found = find-update_row made.id j f rows keeps updated in
    elim (Bool-cases (j == made.id)) [
      | inl here ↦ record {
        valid = valid;
        row = f h.row;
        found = rw (here, h.found) at found;
        link = stays h.row here h.link;
      }
      | inr other ↦ record {
        valid = valid;
        row = h.row;
        found = rw (other, h.found) at found;
        link = h.link;
      }
    ]

pub set_access_level-IsLink :
    (level : Option PreviewUrlAccessLevel) (made row : PreviewUrl)
    → IsLink made row
    → IsLink made (set_access_level level row)
set_access_level-IsLink none made row h = h
set_access_level-IsLink (some level) made row h = record {
  same_id = h.same_id;
  live = h.live;
  same_environment = h.same_environment;
  same_service = h.same_service;
  same_name = h.same_name;
  same_port = h.same_port;
  same_protocol = h.same_protocol;
  level = level;
  has_level = refl;
}

pub set_access_level-id :
    (level : Option PreviewUrlAccessLevel) (row : PreviewUrl)
    → (set_access_level level row).id ≡ row.id
set_access_level-id none row = refl
set_access_level-id (some level) row = refl

pub set_accessed-IsLink :
    (now : Time) (made row : PreviewUrl) → IsLink made row → IsLink made (set_accessed now row)
set_accessed-IsLink now made row h = record {
  same_id = h.same_id;
  live = h.live;
  same_environment = h.same_environment;
  same_service = h.same_service;
  same_name = h.same_name;
  same_port = h.same_port;
  same_protocol = h.same_protocol;
  level = h.level;
  has_level = h.has_level;
}
