-- ===== src/Sql/Selects.antt =====
-- The texts of the statements that the SQL commands of src/ read rows with, as `sprintf` builds them.
use uubang_iot.Base.{ℕ, List, ◌++◌}
use uubang_iot.Base.Bytes.{codes, decimal}

-- src/IotReadCmd.c
unfoldable pub select_iot_cmd : ℕ → ℕ → List ℕ
select_iot_cmd iot_id dev_class =
    codes "SELECT * FROM `iotcmd` WHERE `iotid` ='"
    ++ decimal iot_id
    ++ codes "'AND `class` = '"
    ++ decimal dev_class
    ++ codes "'"

unfoldable pub select_user_scenes : ℕ → List ℕ
select_user_scenes user_id =
    codes "SELECT * FROM `userscenecmd` WHERE `fromUserId` = " ++ decimal user_id

-- src/IotReadSceneCmd.c
unfoldable pub select_iot_scenes : ℕ → List ℕ
select_iot_scenes iot_key = codes "SELECT * FROM `userscenecmd` WHERE `iotid` = " ++ decimal iot_key

-- src/IotReadIotData.c and src/UserGetIotData.c
unfoldable pub select_evt : ℕ → List ℕ
select_evt iot_id = codes "SELECT * FROM `iotevtcache` WHERE `iotId` =" ++ decimal iot_id

-- src/UserReqFriendRelation.c
unfoldable pub select_friends : ℕ → List ℕ
select_friends user_id =
    codes "SELECT * FROM `userrelationship` WHERE `userId` = " ++ decimal user_id

-- src/UserReqIotRel.c
unfoldable pub select_iots : ℕ → List ℕ
select_iots user_id = codes "SELECT * FROM `iotrelationship` WHERE `userId` = " ++ decimal user_id

-- src/UserRequestMessage.c
unfoldable pub select_msgs : List ℕ → ℕ → ℕ → List ℕ → List ℕ → List ℕ
select_msgs time_now user_id friend_id date_first date_last =
    codes "SELECT * FROM `"
    ++ time_now
    ++ codes "` WHERE `userId` = "
    ++ decimal user_id
    ++ codes " AND `friendId` = "
    ++ decimal friend_id
    ++ codes " AND `SendDate` BETWEEN '"
    ++ date_first
    ++ codes "' AND '"
    ++ date_last
    ++ codes "' "

-- src/GetSqlUpdateTime.c
unfoldable pub select_server_info : ℕ → List ℕ
select_server_info user_id =
    codes "SELECT * FROM `iotserverinfo` WHERE `userId` = " ++ decimal user_id

-- src/UpdateRegiterIotAndUser.c
unfoldable pub select_new_users : ℕ → List ℕ
select_new_users id =
    codes "SELECT * FROM `user` WHERE `id` > '" ++ decimal id ++ codes "' ORDER BY `id` ASC"

unfoldable pub select_new_iots : ℕ → List ℕ
select_new_iots id =
    codes "SELECT * FROM `iotnode` WHERE `id` > '" ++ decimal id ++ codes "' ORDER BY `id` ASC"
