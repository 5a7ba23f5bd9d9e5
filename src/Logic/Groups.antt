-- ===== src/Logic/Groups.antt =====
-- apps/logic/dao/groups.go, with apps/logic/models/groups.go and group_members.go: a group is made with
-- its members in one transaction. `assigned` is the id that the database gives a row without one; gorm
-- refuses to create an empty list of rows. Of a member's row the group and the user are kept.
use go_im_system.Prelude.{
  ℕ, Bool, true, false, List, [], ◌∷◌, ◌++◌, Option, none, some, ℤ, pos, int_eq, int_Eq, map,
  if◌then◌else◌,
}
use go_im_system.Text.{Text}
use go_im_system.Sql.{insert_row}
use go_im_system.Logic.Messages.{row_id}
pub mod Created

pub record Group : Type 0 where
  pub group_id : ℤ
  pub group_name : Text
  pub owner_id : ℤ
  pub creator_id : ℤ
  pub create_time : ℕ

pub record GroupTables : Type 0 where
  pub groups : List Group
  pub members : List (ℤ × ℤ)

-- The row that is inserted, whose id the caller's group has afterwards.
abbrev pub group_row : ℤ → ℕ → Group → Group
group_row assigned now g = record g { group_id = row_id assigned g.group_id; create_time = now }

abbrev pub member_rows : ℤ → List ℤ → List (ℤ × ℤ)
member_rows group [] = []
member_rows group (u ∷ us) = (group, u) ∷ member_rows group us

-- The unique index `uk_group_user` is on the column `group_id` alone.
abbrev pub member_index : ℤ × ℤ → ℤ
member_index r = r.0

-- One statement for all rows: none is stored if one is refused.
abbrev pub insert_members : Bool → List (ℤ × ℤ) → List (ℤ × ℤ) → Option (List (ℤ × ℤ))
insert_members fails [] rows = some rows
insert_members fails (r ∷ rs) rows = elim (insert_row member_index fails r rows) [
  | none ↦ none
  | some rows' ↦ insert_members fails rs rows'
]

abbrev pub all_or_none : GroupTables → List Group → Option (List (ℤ × ℤ)) → Bool × GroupTables
all_or_none t gs none = (true, t)
all_or_none t gs (some rows) = (false, record { groups = gs; members = rows })

-- An error of the members takes the group back.
abbrev pub create_members :
    Bool → ℤ → List ℤ → GroupTables → Option (List Group) → Bool × GroupTables
create_members fails group us t none = (true, t)
create_members fails group [] t (some gs) = (true, t)
create_members fails group (u ∷ us) t (some gs) =
    all_or_none t gs (insert_members fails (member_rows group (u ∷ us)) t.members)

-- The first result is whether there is an error.
unfoldable pub create_group :
    ℤ → ℕ → Bool → Bool → Group → List ℤ → GroupTables → Bool × GroupTables
create_group assigned now group_fails members_fail g us t =
    let row = group_row assigned now g in
    create_members members_fail row.group_id us t
      (insert_row (λ r. r.group_id) group_fails row t.groups)
