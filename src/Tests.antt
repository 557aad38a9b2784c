-- ===== src/Tests.antt =====
-- Runs of the program at concrete inputs, and the theorems at them.
mod World
mod Template
mod Reflect
mod Injector
mod Store
mod HotUpdate
mod Requests
mod Collector
mod Controller
mod Kubelet
mod Deployment
mod HttpProbe
mod BinaryPlugin
mod Assembler
