-- ===== src/Channel.antt =====
-- UserChannel.hpp: the users of a channel, and what it knows of their IP addresses. A socket is a
-- number that identifies it. `TBase` is the VM's state, with `OnAddUser`, `OnRemoveUser` and a user
-- that records, or nothing for the global chat; `has_recording` tells the two apart.
pub mod References
pub mod Tests
use collab_vm_server.Base.{
  ℕ, zero, suc, ◌+◌, ◌-◌, ◌%◌, ◌^◌, Bool, true, false, not, List, [], ◌∷◌, ◌++◌, map, Option, none,
  some, length, leb, ◌==◌, if◌then◌else◌,
}
use collab_vm_server.Base.Dict.{lookup, emplace, modify, remove}
use collab_vm_server.User.{UserType, UserData, is_admin}
use collab_vm_server.Chat.{ChatRoom}
use collab_vm_server.Message.{
  Message, Sent, to_user, to_recording, ListedUser, AdminListedUser, user_list, admin_user_list,
  user_list_add, admin_user_list_add, user_list_remove, change_username,
}

pub record ChannelIpData : Type 0 where
  pub voted : Bool
  pub reference_count : ℕ

abbrev pub new_ip_data : ChannelIpData
new_ip_data = record { voted = false; reference_count = 0 }

pub record Channel : Type 0 where
  pub users : List (ℕ × UserData)
  pub ip_data : List (ℕ × ChannelIpData)
  pub admins_count : ℕ
  pub chat_room : ChatRoom

abbrev pub get_id : Channel → ℕ
get_id c = c.chat_room.id

abbrev pub get_user_data : Channel → ℕ → Option UserData
get_user_data c user = lookup user c.users

unfoldable pub new_channel : ChatRoom → Channel
new_channel room = record { users = []; ip_data = []; admins_count = 0; chat_room = room }

-- `Clear` empties the users alone.
unfoldable pub clear : Channel → Channel
clear c = record c { users = [] }

abbrev pub listed : UserData → ListedUser
listed d = record { username = d.username; user_type = d.user_type }

abbrev pub admin_listed : UserData → AdminListedUser
admin_listed d = record {
  username = d.username;
  user_type = d.user_type;
  ip_address = d.ip_address;
}

abbrev listed_entry : ℕ × UserData → ListedUser
listed_entry (user, d) = listed d

abbrev admin_listed_entry : ℕ × UserData → AdminListedUser
admin_listed_entry (user, d) = admin_listed d

unfoldable pub create_user_list_message : Channel → Message
create_user_list_message c = user_list (get_id c) (map listed_entry c.users)

unfoldable pub create_admin_user_list_message : Channel → Message
create_admin_user_list_message c = admin_user_list (get_id c) (map admin_listed_entry c.users)

abbrev sent_to : Message → ℕ × UserData → Sent
sent_to m (user, d) = to_user user m

-- `BroadcastMessage`: the recording, where there is one, is the first to get the message.
unfoldable pub broadcast_message : Bool → List (ℕ × UserData) → Message → List Sent
broadcast_message true users m = to_recording m ∷ map (sent_to m) users
broadcast_message false users m = map (sent_to m) users

-- `CreateUserListAdd` for all users but the new one.
pub announce_user : ℕ → Message → Message → List (ℕ × UserData) → List Sent
announce_user new_user message admin_message [] = []
announce_user new_user message admin_message ((user, d) ∷ users) =
    let rest = announce_user new_user message admin_message users in
    if user == new_user
    then rest
    else to_user user (if is_admin d.user_type then admin_message else message) ∷ rest

abbrev pub reference : ChannelIpData → ChannelIpData
reference i = record i { reference_count = i.reference_count + 1 }

abbrev count_admin : UserData → ℕ
count_admin d = if is_admin d.user_type then 1 else 0

-- The data that `emplace` finds or inserts.
abbrev stored_data : Option UserData → UserData → UserData
stored_data none d = d
stored_data (some old) d = old

unfoldable pub add_user : Channel → UserData → ℕ → Channel × List Sent
unfolding create_user_list_message create_admin_user_list_message announce_user
add_user c initial_user_data user =
    let ip = initial_user_data.ip_address in
    let d = stored_data (lookup user c.users) initial_user_data in
    let c' = record c {
      ip_data = modify ip reference (emplace ip new_ip_data c.ip_data);
      users = emplace user initial_user_data c.users;
      admins_count = (c.admins_count + count_admin d) % 2 ^ 32;
    } in
    let own = to_user user (
      if is_admin d.user_type
      then create_admin_user_list_message c'
      else create_user_list_message c') in
    (
      c',
      (if leb (length c'.users) 1
          then own ∷ []
          else own
            ∷ announce_user user (user_list_add (get_id c') (listed d))
                (admin_user_list_add (get_id c') (admin_listed d)) c'.users),
    )

-- `--` on a `std::size_t`.
abbrev pub dec_size : ℕ → ℕ
dec_size n = if n == 0 then 2 ^ 64 - 1 else n - 1

abbrev pub dereference : ChannelIpData → ChannelIpData
dereference i = record i { reference_count = dec_size i.reference_count }

-- The entry of the address after one reference less, erased if that was the last.
unfoldable pub release_ip : ℕ → List (ℕ × ChannelIpData) → List (ℕ × ChannelIpData)
release_ip ip m = elim (lookup ip m) [
  | none ↦ m
  | some i ↦ if dec_size i.reference_count == 0 then remove ip m else modify ip dereference m
]

-- `RemoveUser` up to the call of `OnRemoveUser`, for a user with data `d`.
unfoldable pub begin_remove_user : Channel → UserData → Channel
unfolding release_ip
begin_remove_user c d = record c {
  ip_data = release_ip d.ip_address c.ip_data;
  admins_count = (c.admins_count + 2 ^ 32 - count_admin d) % 2 ^ 32;
}

-- The rest of `RemoveUser`.
unfoldable pub end_remove_user : Bool → Channel → ℕ → (username : List ℕ) → Channel × List Sent
unfolding broadcast_message
end_remove_user has_recording c user username =
    let c' = record c { users = remove user c.users } in
    (c', broadcast_message has_recording c'.users (user_list_remove (get_id c) username))

-- `RemoveUser` of a channel with no `OnRemoveUser`.
unfoldable pub remove_user : Channel → ℕ → Channel × List Sent
unfolding begin_remove_user end_remove_user
remove_user c user = elim (lookup user c.users) [
  | none ↦ (c, [])
  | some d ↦ end_remove_user false (begin_remove_user c d) user d.username
]

abbrev pub rename : UserType → List ℕ → UserData → UserData
rename user_type username d = record d { user_type = user_type; username = username }

-- The `update_username` of `SetUserData` in CollabVmServer.hpp, run on a channel.
unfoldable pub update_username : Bool → Channel → ℕ → UserType → List ℕ → Channel × List Sent
unfolding broadcast_message
update_username has_recording c user user_type new_username = elim (lookup user c.users) [
  | none ↦ (c, [])
  | some d ↦
      let c' = record c { users = modify user (rename user_type new_username) c.users } in
      (c', broadcast_message has_recording c'.users (change_username d.username new_username))
]
