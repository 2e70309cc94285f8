-- ===== src/Lib.antt =====
-- Verification of the collab-vm-server: a server that lets many users watch and control virtual machines
-- through Guacamole, with a turn queue, a vote and a chat for each machine.
--
-- Parts and files.
-- * TurnController.hpp is Turn: the queue of users who wait for control, their positions and the turn
--   timer. `TurnController` is the object's state, `request_turn`, `remove_user`, `pause_turn_timer`,
--   `resume_turn_timer`, `end_current_turn`, `clear` and `on_timer` are its functions of those names,
--   and `step` runs one call. The positions are fields of the sockets, which the controllers of all
--   VMs share. Turn/Position and Turn/Order have the invariant, Turn/Refinement the specification,
--   Turn/Timer the timer, Turn/Runs the sequences of calls.
-- * VoteController.hpp is Vote: the state of a vote and the handlers of its timer, with Vote/Tally.
-- * CollabVmChatRoom.hpp is Chat: the ring of a room's last messages, with Chat/Ring and Chat/History.
-- * UserChannel.hpp is Channel: the users of a channel and the references to their addresses, with
--   Channel/References. Message has the messages that are sent, User the data of a user.
-- * AdminVirtualMachine.hpp is Vm, which composes the parts above the way the class inherits from
--   them: Vm/Users has joining and leaving, Vm/Votes the votes, Vm/Control turns, input, start and
--   stop, Vm/Settings new settings, Vm/Steps has the events of a VM as one machine: users who join,
--   leave, vote and use turns and input, the timers, start and stop, the callbacks of the Guacamole
--   client, and new settings. Chat messages and new names reach a VM's channel directly and are not
--   events of it. Vm/Ballot is about the votes of all users together.
-- * CollabVmServer.hpp is SendQueue, the queue of messages of a socket (`QueueMessage`,
--   `QueueMessageBatch` and `SendMessageCallback`), and further parts. Its `SetUserData` is in
--   Channel, as `update_username`. Client has `HandleMessage`: Client/Handle the guards of every
--   message and the tasks that they hand on, Client/Runs the events that change the flags of a socket;
--   Client/Safety and Client/Rate are about what the guards keep out. Machines joins Client to Vm: the
--   calls of VMs that a client's message leads to, with the positions that all VMs share; the other
--   tasks of a message, such as to connect, to chat and to take a name, are handed back undone. VmList
--   is `VirtualMachinesList`: its viewers, VmList/Resizable the class `ResizableList`, VmList/Update
--   the update of all infos and of one, with VmList/Info for `SetVmInfo` of a VM, VmList/Load its
--   constructor. Guests has the names of the guests, with CaseInsensitiveUtils.hpp, and Direct the
--   chat between two clients.
-- * RecordingController.hpp is Recording: the files of a recording and their timers, with
--   Recording/Filter for the messages that are written. Archive has the table of the recordings in
--   Database/Database.cpp, and Archive/Playback the place in a file from which CollabVmServer.hpp
--   makes previews.
-- * Database/Database.cpp is Accounts and Archive: the users, Accounts/Register and Accounts/Session
--   create accounts and sessions, `login` and `change_password` are `Login` and `ChangePassword`,
--   Accounts/Invites has invites and reserved usernames. Accounts/Entry is what the messages for
--   registration and login do with them. The password hash is a parameter.
-- * CaptchaVerifier.hpp is Captcha: requests to the captcha service and what happens on each failure.
--   The replacement of variables in a text is a parameter.
-- * `Database::UpdateList` in Database/Database.h and `GetInitialSettings` in AdminVirtualMachine.hpp
--   are SettingList: lists that have every setting at the place of its number.
-- * Utils.hpp is Url: `form_urlencode`.
-- * IPData.hpp is Address, with `OnPreConnect` and `OnDisconnect` of CollabVmServer.hpp: the count of
--   the connections of an address, and in Address/Limit its limit. It is about the order in which the
--   sockets of one address are counted; that a socket closes before it was counted is left out.
-- * Totp.hpp is Totp: one-time passwords. OpenSSL's HMAC is a parameter, and Totp/Window needs of it
--   that the digest of SHA-1 has 20 bytes.
-- * WebSocketServer.hpp is Web: `respond` is what `ReadHttpRequest` does with a request,
--   `send_file_response` is `SendFileResponse`. Web/Paths has what is used of `std::filesystem::path`.
--   What the host's file system answers and how Boost.Beast looks for a token in a header are
--   parameters. Web/Serving is about the files that are sent.
--
-- How code becomes definitions. An object's fields are a record, a member function is a function from
-- the record and its arguments to the new record, the calls it makes of other objects as effects in
-- order, and its result. `none` stands for undefined behaviour or an exception that nothing catches.
-- The clock and the timers are arguments: what `expiry() - now`, `cancel()` and the limits of the
-- Common library give is passed in. Base/Int has signed durations, and 32 and 64 bit counters wrap
-- around. A handler runs on its object's strand, so it is one step, and concurrency is the order of
-- the steps.
--
-- Bounds. All functions are structural, but for `generate_username` in Guests, the loop that looks for
-- a free name: its fuel is the number of tries, and one more than there are guests is enough.
--
-- Not modelled: the SQL statements of the settings of the server and of VMs, the making of previews
-- from a recording file, what the tasks to connect to a channel, to chat in a VM and to change a name
-- do to the map of VMs, what the web server does with its sockets, the Guacamole client and its
-- screenshots, the Cap'n Proto message building and the strands themselves, which are wrappers of
-- libraries. The schema and the Common library are submodules that are not in the repository, and what
-- is used of them is a parameter or a data type.
pub mod Base
pub mod User
pub mod Turn
pub mod Chat
pub mod Vote
pub mod Message
pub mod Channel
pub mod Vm
pub mod SendQueue
pub mod Accounts
pub mod Captcha
pub mod Url
pub mod SettingList
pub mod Client
pub mod Machines
pub mod VmList
pub mod Guests
pub mod Direct
pub mod Recording
pub mod Archive
pub mod Address
pub mod Totp
pub mod Web
