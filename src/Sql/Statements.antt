-- ===== src/Sql/Statements.antt =====
-- The texts that the commands build with `sprintf`. The numbers are keys, classes and states, none
-- of them negative.
use uubang_iot.Base.{ℕ, List, [], ◌++◌, ◌==◌, if◌then◌else◌}
use uubang_iot.Base.Bytes.{codes, decimal}

-- src/NewUserFriend.c
unfoldable pub insert_friend : ℕ → ℕ → List ℕ
insert_friend user_id friend_id =
    codes "INSERT INTO `userrelationship` (`userId`, `friendId`, `RelCreateDate`) VALUES ('"
    ++ decimal user_id
    ++ codes "', '"
    ++ decimal friend_id
    ++ codes "', "
    ++ codes "CURRENT_TIMESTAMP)"

-- src/NewUserIot.c
unfoldable pub insert_iot : ℕ → ℕ → List ℕ
insert_iot user_id iot_id =
    codes "INSERT INTO `iotrelationship` (`userId`, `iotId`, `bondDate`) VALUES ('"
    ++ decimal user_id
    ++ codes "', '"
    ++ decimal iot_id
    ++ codes "', "
    ++ codes "CURRENT_TIMESTAMP)"

-- src/NewUserMsgStorge.c
unfoldable pub insert_msg : List ℕ → ℕ → ℕ → List ℕ → List ℕ
insert_msg time_now user_id to_id content =
    codes "INSERT INTO `"
    ++ time_now
    ++ codes "` (`userId`, `friendId`, `Content`, `SendDate`) VALUES ('"
    ++ decimal user_id
    ++ codes "', '"
    ++ decimal to_id
    ++ codes "', '"
    ++ content
    ++ codes "', "
    ++ codes "CURRENT_TIMESTAMP)"

-- src/NewIotCmdToBeExecute.c
unfoldable pub insert_iot_cmd : ℕ → ℕ → ℕ → List ℕ → ℕ → List ℕ → List ℕ
insert_iot_cmd iot_id dev_class status cmd from_id time_to_be_exe =
    codes
      "INSERT INTO `iotcmd` (`iotid`, `class`, `status`, `cmd`, `fromid`, `cmdDate`, `cmdStatus`) VALUES ('"
    ++ decimal iot_id
    ++ codes "', '"
    ++ decimal dev_class
    ++ codes "', '"
    ++ decimal status
    ++ codes "', '"
    ++ cmd
    ++ codes "', '"
    ++ decimal from_id
    ++ codes "','"
    ++ time_to_be_exe
    ++ codes "', '0')"

-- src/NewUserSceneCmd.c
unfoldable pub insert_scene : ℕ → ℕ → List ℕ → ℕ → List ℕ → List ℕ → ℕ → ℕ → List ℕ
insert_scene iot_id devclass cmd status time_stamp exe_date cmd_group from_user_id =
    codes
      "INSERT INTO `userscenecmd` (`iotid`, `devClass`, `cmdContent`, `status`, `CmdTime`, `ExeDate`, `CmdGroup`, `fromUserId`) VALUES ('"
    ++ decimal iot_id
    ++ codes "', '"
    ++ decimal devclass
    ++ codes "', '"
    ++ cmd
    ++ codes "', '"
    ++ decimal status
    ++ codes "', '"
    ++ time_stamp
    ++ codes "', '"
    ++ exe_date
    ++ codes "', '"
    ++ decimal cmd_group
    ++ codes "', '"
    ++ decimal from_user_id
    ++ codes "')"

unfoldable pub delete_iot_cmd : ℕ → ℕ → List ℕ
delete_iot_cmd iot_id dev_class =
    codes "DELETE FROM `iotcmd` WHERE `iotcmd`.`iotid` = '"
    ++ decimal iot_id
    ++ codes "'AND `iotcmd`.`class` = '"
    ++ decimal dev_class
    ++ codes "'"

-- src/IotUpdateData.c
unfoldable pub insert_evt : ℕ → ℕ → ℕ → List ℕ → List ℕ
insert_evt iot_id evt_class status content =
    codes
      "INSERT INTO `iotevtcache` (`iotId`, `evtClass`, `status`, `content`, `updateDate`) VALUES ('"
    ++ decimal iot_id
    ++ codes "', '"
    ++ decimal evt_class
    ++ codes "', '"
    ++ decimal status
    ++ codes "', '"
    ++ content
    ++ codes "', CURRENT_TIMESTAMP)"

unfoldable pub update_evt : ℕ → ℕ → ℕ → List ℕ → List ℕ
update_evt iot_id evt_class status content =
    codes "UPDATE `iotevtcache` SET `status` = '"
    ++ decimal status
    ++ codes "', `content` = '"
    ++ content
    ++ codes "', `updateDate` = CURRENT_TIME() WHERE `iotevtcache`.`iotId` = "
    ++ decimal iot_id
    ++ codes " AND `iotevtcache`.`evtClass` =  "
    ++ decimal evt_class

-- src/UserDeleteSce.c
unfoldable pub delete_scene : ℕ → List ℕ
delete_scene iot_id =
    codes "DELETE FROM `userscenecmd` WHERE `userscenecmd`.`iotid`  = " ++ decimal iot_id

-- src/ReadOrDeleteUserSceneCmd.c
unfoldable pub delete_scene_group : ℕ → ℕ → List ℕ
delete_scene_group cmd_group_id user_id =
    codes "DELETE FROM `userscenecmd` WHERE `userscenecmd`.`CmdGroup` = '"
    ++ decimal cmd_group_id
    ++ codes "'AND `userscenecmd`.`fromUserId` = '"
    ++ decimal user_id
    ++ codes "'"

-- src/UpdateSqlInfoTimestamp.c; for another index the text stays empty
unfoldable pub update_server_info : ℕ → ℕ → ℕ → List ℕ
update_server_info user_id index flag =
    if index == 1
    then codes "UPDATE `iotserverinfo` SET `FriendRelUpdateTime` = "
      ++ codes "CURRENT_TIME()"
      ++ codes " WHERE `iotserverinfo`.`userId` = "
      ++ decimal user_id
    else if index == 2
    then codes "UPDATE `iotserverinfo` SET `IotRelUpdateTime` = "
      ++ codes "CURRENT_TIME()"
      ++ codes " WHERE `iotserverinfo`.`userId` = "
      ++ decimal user_id
    else if index == 3
    then codes "UPDATE `iotserverinfo` SET `MsgRecUpdateTime` = "
      ++ codes "CURRENT_TIME()"
      ++ codes " WHERE `iotserverinfo`.`userId` = "
      ++ decimal user_id
    else if index == 4
    then codes "UPDATE `iotserverinfo` SET `IsRegisterRecord` = "
      ++ decimal flag
      ++ codes " WHERE `iotserverinfo`.`userId` = "
      ++ decimal user_id
    else []

-- src/NewUserMsgTalbleInSQL.c
unfoldable pub create_table : List ℕ → List ℕ
create_table time_now =
    codes "CREATE TABLE `iotserver`.`"
    ++ time_now
    ++ codes
        "` ( `userId` INT UNSIGNED NOT NULL , `friendId` INT UNSIGNED NOT NULL , `Content` TEXT NOT NULL , `SendDate` TIMESTAMP NOT NULL DEFAULT CURRENT_TIMESTAMP ) ENGINE = InnoDB"

-- src/UpdateServerRunInfo.c
unfoldable pub insert_run_info : List ℕ → List ℕ → List ℕ
insert_run_info server_id net_ip =
    codes
      "INSERT INTO `serverruninfo` (`ServerId`, `name`, `os`, `ip`, `vendor`, `UpdateTime`) VALUES ('"
    ++ server_id
    ++ codes "', '"
    ++ codes "TEST"
    ++ codes "', '"
    ++ codes "WinServer"
    ++ codes "', '"
    ++ net_ip
    ++ codes "', '"
    ++ codes "aliyun"
    ++ codes "', "
    ++ codes " CURRENT_TIMESTAMP)"

unfoldable pub update_run_info : List ℕ → List ℕ → ℕ → ℕ → ℕ → ℕ → ℕ → List ℕ
update_run_info server_id net_ip cpu_rate mem task_num online_user_num online_iot_num =
    codes "UPDATE `serverruninfo` SET `cpu` = '"
    ++ decimal cpu_rate
    ++ codes "', `ip` = '"
    ++ net_ip
    ++ codes "', `memory` = '"
    ++ decimal mem
    ++ codes "', `onlineUserNum` = '"
    ++ decimal online_user_num
    ++ codes "', `onlineIotNum` = '"
    ++ decimal online_iot_num
    ++ codes "', `TaskNum` = '"
    ++ decimal task_num
    ++ codes "', `UpdateTime` = CURRENT_TIME() WHERE `serverruninfo`.`ServerId` = "
    ++ server_id

-- src/UserRegister.c
unfoldable pub insert_user : List ℕ → List ℕ → List ℕ → List ℕ → List ℕ
insert_user user_id nick_name pass_word email =
    codes "INSERT INTO user (id, userId, nickName, passWord, email, registDate) VALUES (NULL, '"
    ++ user_id
    ++ codes "', '"
    ++ nick_name
    ++ codes "', '"
    ++ pass_word
    ++ codes "', '"
    ++ email
    ++ codes "', "
    ++ codes "CURRENT_TIMESTAMP)"

unfoldable pub insert_server_info : List ℕ
insert_server_info =
    codes
      "INSERT INTO `iotserverinfo` (`userId`, `FriendRelUpdateTime`, `IotRelUpdateTime`, `MsgRecUpdateTime`, `IsRegisterRecord`) VALUES (NULL,"
    ++ codes "CURRENT_TIMESTAMP"
    ++ codes ", "
    ++ codes "CURRENT_TIMESTAMP"
    ++ codes ", "
    ++ codes "CURRENT_TIMESTAMP"
    ++ codes ", '"
    ++ decimal 0
    ++ codes "')"

-- src/IotDevRegister.c
unfoldable pub insert_iot_node : List ℕ → ℕ → List ℕ → List ℕ
insert_iot_node pin_code device_class open_id =
    codes
      "INSERT INTO `iotnode` (`id`, `pinCode`, `deviceClass`, `openId`, `RegistDate`) VALUES (NULL, '"
    ++ pin_code
    ++ codes "', '"
    ++ decimal device_class
    ++ codes "', '"
    ++ open_id
    ++ codes "', "
    ++ codes "CURRENT_TIMESTAMP)"

-- src/UserRePwd.c
unfoldable pub update_password : List ℕ → ℕ → List ℕ
update_password pass_word id =
    codes "UPDATE `user` SET `passWord` = '"
    ++ pass_word
    ++ codes "' WHERE `user`.`id` = "
    ++ decimal id
