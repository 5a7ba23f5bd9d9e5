-- ===== src/Logic/Groups/Created.antt =====
-- What `CreateGroup` of apps/logic/dao/groups.go makes, under the index that the members' model declares.
use go_im_system.Prelude.{
  ℕ, ◌≡◌, refl, Bool, true, false, ◌&&◌, not, List, [], ◌∷◌, ◌++◌, none, ℤ, int_Eq, int_eq_iff,
  if◌then◌else◌, arith,
}
use go_im_system.Sql.{has_key, has_key-append}
use go_im_system.Logic.Messages.{row_id}
use go_im_system.Logic.Groups.{
  Group, GroupTables, group_row, member_index, member_rows, insert_members, create_group,
}

abbrev pub is_one : List ℤ → Bool
is_one [] = false
is_one (u ∷ []) = true
is_one (u ∷ (v ∷ us)) = false

-- What a group needs to be made.
abbrev pub can_make : Bool → Bool → ℤ → List ℤ → GroupTables → Bool
can_make x y id us t =
    not x
    && (not y
        && (is_one us
            && (not (has_key (λ (r : Group). r.group_id) id t.groups)
                && not (has_key member_index id t.members))))

-- A second member of a group is refused.
insert_members_two :
    (y : Bool) (id u v : ℤ) (us : List ℤ) (rows : List (ℤ × ℤ))
    → insert_members y (member_rows id (u ∷ (v ∷ us))) rows ≡ none
insert_members_two true id u v us rows = refl
insert_members_two false id u v us rows =
    ground (arith, has_key-append member_index id rows (id, u), int_eq_iff id id)

-- A group is made, with its row and one member's row behind the others, when no statement
-- fails, the list has just one member, and the group's id, which the database gives if the
-- caller does not, is in neither table; in every other case, and so with two or more members,
-- there is an error, and both tables are as before.
pub create_group_lem :
    (assigned : ℤ) (now : ℕ) (x y : Bool) (g : Group) (us : List ℤ) (t : GroupTables)
    → let row = group_row assigned now g in
      create_group assigned now x y g us t ≡ (
        if can_make x y row.group_id us t
        then (
          false,
          record {
            groups = t.groups ++ row ∷ [];
            members = t.members ++ member_rows row.group_id us;
          },
        )
        else (true, t))
unfolding create_group
create_group_lem assigned now true y g us t = refl
create_group_lem assigned now false y g [] t = ground arith
create_group_lem assigned now false y g (u ∷ []) t = ground arith
create_group_lem assigned now false y g (u ∷ (v ∷ us)) t =
    ground (arith, insert_members_two y (row_id assigned g.group_id) u v us t.members)
