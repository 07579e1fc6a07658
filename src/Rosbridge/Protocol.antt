-- ===== src/Rosbridge/Protocol.antt =====
-- rosbridge/protocol.go: the requests that go out over the socket. A message is the object that the
-- code hands to `json.Marshal`, with its fields in the order of the source.
use rom_go_app.Prelude.{String, List, [], ◌∷◌}
use rom_go_app.Rosbridge.Types.{NavigationPoint, WallObstacle}

mutual
  pub data Json (F : Type 0) : Type 0 where
    text : String → Json F
    number : F → Json F
    array : Items F → Json F
    object : Fields F → Json F

  pub data Items (F : Type 0) : Type 0 where
    nil : Items F
    cons : Json F → Items F → Items F

  pub data Fields (F : Type 0) : Type 0 where
    end : Fields F
    field : String → Json F → Fields F → Fields F

module _ {F : Type 0} where
  unfoldable pub subscribe_msg : String → String → Json F
  subscribe_msg topic msg_type = object (
      field "op" (text "subscribe") (field "topic" (text topic) (field "type" (text msg_type) end)))

  unfoldable pub unsubscribe_msg : String → Json F
  unsubscribe_msg topic = object (field "op" (text "unsubscribe") (field "topic" (text topic) end))

  unfoldable pub publish_msg : String → Json F → Json F
  publish_msg topic msg =
      object (field "op" (text "publish") (field "topic" (text topic) (field "msg" msg end)))

  unfoldable pub call_service_msg : String → Json F → String → Json F
  call_service_msg service args id = object (
      field "op" (text "call_service")
        (field "service" (text service) (field "args" args (field "id" (text id) end))))

  unfoldable pub which_maps_args : String → String → String → String → Json F
  which_maps_args request_string map_save map_select token = object (
      field "request_string" (text request_string) (
        field "map_name_to_save" (text map_save) (
          field "map_name_to_select" (text map_select)
            (field "login_access_token" (text token) end))))

  unfoldable pub which_task_args : String → String → Json F
  which_task_args task_name settings_data =
      object (field "task_name" (text task_name) (field "settings_data" (text settings_data) end))

  unfoldable pub waypoint_json : NavigationPoint F → Json F
  waypoint_json p = object (
      field "name" (text p.name) (
        field "image_x_px" (number p.image_x_px) (
          field "image_y_px" (number p.image_y_px) (
            field "image_theta_deg" (number p.image_theta_deg) (
              field "world_x_m" (number p.world_x_m) (
                field "world_y_m" (number p.world_y_m)
                  (field "world_theta_rad" (number p.world_theta_rad) end)))))))

  unfoldable pub waypoint_to_json : List (NavigationPoint F) → Items F
  unfolding waypoint_json
  waypoint_to_json [] = nil
  waypoint_to_json (p ∷ pts) = cons (waypoint_json p) (waypoint_to_json pts)

  unfoldable pub wall_json : WallObstacle F → Json F
  wall_json w = object (
      field "image_x_px_start" (number w.image_x_px_start) (
        field "image_y_px_start" (number w.image_y_px_start) (
          field "image_x_px_end" (number w.image_x_px_end) (
            field "image_y_px_end" (number w.image_y_px_end) (
              field "world_x_m_start" (number w.world_x_m_start) (
                field "world_y_m_start" (number w.world_y_m_start) (
                  field "world_x_m_end" (number w.world_x_m_end)
                    (field "world_y_m_end" (number w.world_y_m_end) end))))))))

  unfoldable pub wall_obstacles_to_json : List (WallObstacle F) → Items F
  unfolding wall_json
  wall_obstacles_to_json [] = nil
  wall_obstacles_to_json (w ∷ walls) = cons (wall_json w) (wall_obstacles_to_json walls)

abbrev pub type_occupancy_grid : String
type_occupancy_grid = "nav_msgs/msg/OccupancyGrid"

abbrev pub type_odometry : String
type_odometry = "nav_msgs/msg/Odometry"

abbrev pub type_tf_message : String
type_tf_message = "tf2_msgs/msg/TFMessage"

abbrev pub type_laser_scan : String
type_laser_scan = "sensor_msgs/msg/LaserScan"

abbrev pub type_twist : String
type_twist = "geometry_msgs/msg/Twist"
